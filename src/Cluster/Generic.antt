-- ===== src/Cluster/Generic.antt =====
-- src/cluster/PickGeneric.hxx: the pick in every sticky mode.
use native.Mathlib.Decide.{dec_le}
use native.Mathlib.Nat.{mod-lt}
use cm4all_beng_proxy.Common.{
  ℕ, ◌+◌, ◌-◌, ◌<◌, ◌≡◌, inl, inr, refl, Bool, true, false, Option, some, arith, ◌==◌, Bool-cases,
  ==_iff,
}
use cm4all_beng_proxy.Cluster.{
  Check, following, RoundRobinBalancer, get, pick_failover, StickyMode, by_hash, pick_mode,
  pick_generic,
}
use cm4all_beng_proxy.Cluster.First.{IsFirst, around, around_cases, around-lt}
use cm4all_beng_proxy.Cluster.Pick.{pick_failover-IsFirst, pick_modulo-IsFirst}
use cm4all_beng_proxy.Cluster.Rotate.{IsValid, following-lt, get-IsFirst}

-- A pick that is a member, and passes as a fading member may if one passes outright.
record IsGood (check : Check) (n r : ℕ) : Type 0 where
  member : r < n
  passes : (i : ℕ) → i < n → check i false ≡ true → check r true ≡ true

-- every member is some distance from the start
distance_to : (n s i : ℕ) → s < n → i < n → (k : ℕ) × (k < n) × (around n s k ≡ i)
distance_to n s i p q = elim (dec_le s i) [
  | yes le ↦ (i - s, omega arith, ground (arith, around_cases n s (i - s)))
  | no gt ↦ (i + n - s, omega arith, ground (arith, around_cases n s (i + n - s)))
]

module _ (check : Check) (tolerant : (i : ℕ) → check i false ≡ true → check i true ≡ true) where
  at_true : (i : ℕ) (fade : Bool) → check i fade ≡ true → check i true ≡ true
  at_true i true h = h
  at_true i false h = tolerant i h

  of_false : (i : ℕ) (fade : Bool) → check i false ≡ true → check i fade ≡ true
  of_false i true h = tolerant i h
  of_false i false h = h

  IsFirst-IsGood :
      (n s : ℕ) (fade : ℕ → Bool) (r : ℕ)
      → s < n
      → IsFirst n s (λ i j. check i (fade j)) r
      → IsGood check n r
  IsFirst-IsGood n s fade r s_lt f = record {
    member = rw f.place (around-lt n s f.distance (omega arith));
    passes = λ i lt ok. elim f.verdict [
      | inl pass ↦ at_true r (fade f.distance) pass
      | inr (_, failed) ↦
          let (k, k_lt, e) = distance_to n s i s_lt lt in
          let fails : check i (fade k) ≡ false = rw (← e) (failed k k_lt) in
          let holds : check i (fade k) ≡ true = of_false i (fade k) ok in cc
    ];
  }

  abbrev Picked : ℕ → Option (ℕ × RoundRobinBalancer) → Type 0
  Picked n o =
      (r : ℕ) × (b : RoundRobinBalancer) × (o ≡ some (r, b)) × IsGood check n r × IsValid n b

  get-Picked :
      (n : ℕ) (fade : Bool) (b : RoundRobinBalancer)
      → 1 < n
      → IsValid n b
      → Picked n (get check n fade b)
  get-Picked n fade b two v =
      let (r, e, f) = get-IsFirst check n fade b two v in
      let good : IsGood check n r = IsFirst-IsGood n b.next (λ _. fade) r v.next_lt f in
      (
        r,
        record { next = following n r },
        e,
        good,
        record { next_lt = following-lt n r good.member; size_le = v.size_le },
      )

  by_hash-Picked :
      (n hash : ℕ) (b : RoundRobinBalancer)
      → 1 < n
      → IsValid n b
      → Picked n (by_hash check n hash b)
  unfolding by_hash
  by_hash-Picked n hash b two v = elim (Bool-cases (hash == 0)) [
    | inl e ↦ rw e (get-Picked n false b two v)
    | inr e ↦
        let (r, q, f) = pick_modulo-IsFirst check n hash two in
        (
          r,
          b,
          rw (e, q),
          IsFirst-IsGood n _ (λ j. j == 0) r (mod-lt hash (omega (arith, v.next_lt))) f,
          v,
        )
  ]

  pick_mode-Picked :
      (mode : StickyMode) (n hash : ℕ) (b : RoundRobinBalancer)
      → 1 < n
      → IsValid n b
      → Picked n (pick_mode check mode n hash b)
  unfolding pick_mode
  pick_mode-Picked StickyMode.no_mode n hash b two v = get-Picked n true b two v
  pick_mode-Picked StickyMode.failover n hash b two v = (
    pick_failover check n,
    b,
    refl,
    IsFirst-IsGood n 0 (λ _. true) _ (omega (arith, v.next_lt))
        (pick_failover-IsFirst check n (omega (arith, v.next_lt))),
    v,
  )
  pick_mode-Picked _ n hash b two v = by_hash-Picked n hash b two v

  -- In every mode `PickGeneric` comes to an end, picks a member of the list, and picks one that
  -- passes (fading allowed) if any member passes outright; the balancer stays valid. The list is
  -- not empty and fits an unsigned, the balancer names a member, and a check that passes outright
  -- passes when fading is allowed.
  pub pick_generic-IsGood :
      (mode : StickyMode) (n hash : ℕ) (b : RoundRobinBalancer)
      → IsValid n b
      → (r : ℕ) × (b' : RoundRobinBalancer) × (pick_generic check mode n hash b ≡ some (r, b'))
        × (r < n)
        × ((i : ℕ) → i < n → check i false ≡ true → check r true ≡ true)
        × IsValid n b'
  unfolding pick_generic
  pick_generic-IsGood mode n hash b v = elim (Bool-cases (n == 1)) [
    | inl e ↦
        let one : n ≡ 1 = (==_iff n 1).0 e in
        (0, b, rw e, omega arith, λ i lt ok. only i (omega arith) ok, v)
    | inr e ↦
        let (r, b', q, good, v') = pick_mode-Picked mode n hash b (several e v) v in
        (r, b', rw (e, q), good.member, good.passes, v')
  ]
    where
      several : (n == 1) ≡ false → IsValid n b → 1 < n
      several e v = ground (arith, v.next_lt)

      only : (i : ℕ) → i ≡ 0 → check i false ≡ true → check 0 true ≡ true
      only i z ok = tolerant 0 (rw z at ok)
