-- ===== src/Cluster/Pick.antt =====
-- The picks of src/cluster/PickFailover.hxx and PickModulo.hxx.
use cm4all_beng_proxy.Common.{
  ℕ, zero, suc, ◌+◌, ◌%◌, ◌<◌, ◌≡◌, inl, inr, refl, sym, ap, ◌∙◌, Bool, true, false, some, arith,
  ltb, ◌==◌, Bool-cases, ==_iff, ==_refl,
}
use cm4all_beng_proxy.Cluster.{
  Check, failover_loop, pick_failover, following, modulo_loop, pick_modulo,
}
use cm4all_beng_proxy.Cluster.First.{
  IsFirst, around, around-zero, around-suc, around-ne-start, around_self, around_cases,
}
use native.Mathlib.Nat.{mod-lt}

-- Any member, whatever its distance, may be fading.
abbrev pub always : Check → Bool → ℕ → ℕ → Bool
always check allow_fade i j = check i allow_fade

-- Only the selected member may be fading.
abbrev pub first_only : Check → ℕ → ℕ → Bool
first_only check i j = check i (j == 0)

around_front : (n j : ℕ) → j < n → around n 0 j ≡ j
around_front n j h = ground (arith, around_cases n 0 j)

failover_loop-IsFirst :
    (check : Check) (n left i : ℕ)
    → 0 < n
    → i + left ≡ n
    → ((j : ℕ) → j < i → check (around n 0 j) true ≡ false)
    → IsFirst n 0 (always check true) (failover_loop check left i)
unfolding failover_loop
failover_loop-IsFirst check n zero i pos e failed = record {
  distance = 0;
  near = pos;
  place = sym (around-zero n 0 pos);
  before = λ j h. elim h [ ];
  verdict = inr (refl, λ j h. failed j (omega arith));
}
failover_loop-IsFirst check n (suc left) i pos e failed = elim (Bool-cases (check i true)) [
  | inl pass ↦ rw pass (record {
    distance = i;
    near = omega arith;
    place = sym (around_front n i (omega arith));
    before = failed;
    verdict = inl pass;
  })
  | inr fail ↦ rw fail (
      failover_loop-IsFirst check n left (i + 1) pos (omega arith)
        (λ j h. ground (arith, failed j, around_front n i)))
]

-- The member that `PickFailover` picks from a list that is not empty is the first one that passes,
-- fading or not, and the front of the list if none does.
pub pick_failover-IsFirst :
    (check : Check) (n : ℕ) → 0 < n → IsFirst n 0 (always check true) (pick_failover check n)
unfolding pick_failover
pick_failover-IsFirst check n pos =
    failover_loop-IsFirst check n n 0 pos (omega arith) (λ j h. elim h [ ])

module _ (check : Check) (n s : ℕ) (s_lt : s < n) where
  -- after `n` failures the loop is back at its start
  pub none_passes :
      (test : ℕ → ℕ → Bool) → ((j : ℕ) → j < n → test (around n s j) j ≡ false) → IsFirst n s test s
  none_passes test failed = record {
    distance = 0;
    near = omega arith;
    place = sym (around-zero n s s_lt);
    before = λ j h. elim h [ ];
    verdict = inr (refl, failed);
  }

  pub one_more :
      (test : ℕ → ℕ → Bool) (k : ℕ)
      → ((j : ℕ) → j < k → test (around n s j) j ≡ false)
      → test (around n s k) k ≡ false
      → (j : ℕ) → j < k + 1
      → test (around n s j) j ≡ false
  one_more test k failed fail j h = elim (Bool-cases (j == k)) [
    | inl e ↦ rw ((==_iff j k).0 e) fail
    | inr e ↦ failed j (ground arith)
  ]

  modulo_loop-IsFirst :
      (fuel k i : ℕ) (allow_fade : Bool)
      → i ≡ around n s k
      → allow_fade ≡ (k == 0)
      → k < n
      → k + fuel ≡ n
      → ((j : ℕ) → j < k → first_only check (around n s j) j ≡ false)
      → (r : ℕ) × (modulo_loop check n s fuel i allow_fade ≡ some r)
        × IsFirst n s (first_only check) r
  unfolding modulo_loop
  modulo_loop-IsFirst zero k i allow_fade at fade near fuel failed = absurd (omega arith)
  modulo_loop-IsFirst (suc fuel) k i allow_fade at fade near enough failed =
      elim (Bool-cases (check i allow_fade)) [
        | inl pass ↦ (
          i,
          rw pass,
          record {
            distance = k;
            near = near;
            place = at;
            before = failed;
            verdict = inl (rw (← fade) pass);
          },
        )
        | inr fail ↦
            let fails : first_only check (around n s k) k ≡ false = rw (← at, ← fade) fail in
            let step : around n s (k + 1) ≡ following n i =
              rw at (around-suc n s k (omega arith)) in
            elim (Bool-cases (k + 1 == n)) [
              | inl last ↦
                  let back : following n i ≡ s =
                    sym step ∙ ap (around n s) ((==_iff _ n).0 last) ∙ around_self n s s_lt in
                  (
                    s,
                    rw fail (rw back (rw (==_refl s))),
                    none_passes (first_only check)
                        (λ j h. one_more (first_only check) k failed fails j (ground arith)),
                  )
              | inr more ↦
                  let inside : k + 1 < n = ground arith in
                  let on : (following n i == s) ≡ false =
                    rw (← step) (around-ne-start n s (k + 1) s_lt (omega arith) inside) in
                  rw (fail, on)
                    (modulo_loop-IsFirst fuel (k + 1) (following n i) false (sym step)
                      (ground arith) inside (omega arith)
                      (one_more (first_only check) k failed fails))
            ]
      ]

-- `PickModulo` comes to an end on a list of two members at least, as it asserts. It picks the first
-- member that passes from the selected one on, which is at the hash modulo the size, where only the
-- selected one may be fading; if none passes, it picks the selected one.
pub pick_modulo-IsFirst :
    (check : Check) (n hash : ℕ)
    → 1 < n
    → (r : ℕ) × (pick_modulo check n hash ≡ some r) × IsFirst n (hash % n) (first_only check) r
unfolding pick_modulo
pick_modulo-IsFirst check n hash two =
    let pos : 0 < n = omega arith in
    let asserted : ltb n 2 ≡ false = ground arith in
    let s_lt : hash % n < n = mod-lt hash pos in
    rw asserted (
      modulo_loop-IsFirst check n (hash % n) s_lt n 0 (hash % n) true
        (sym (around-zero n (hash % n) s_lt)) refl pos (omega arith) (λ j h. elim h [ ]))

-- The selected member is picked if it passes.
pub pick_modulo-selected :
    (check : Check) (n hash : ℕ)
    → 1 < n
    → check (hash % n) true ≡ true
    → pick_modulo check n hash ≡ some (hash % n)
unfolding pick_modulo modulo_loop
pick_modulo-selected check zero hash two good = absurd (omega arith)
pick_modulo-selected check (suc n) hash two good =
    let asserted : ltb (suc n) 2 ≡ false = ground arith in rw (asserted, good) refl
