-- ===== src/Cluster/Rotate.antt =====
-- src/cluster/RoundRobinBalancer.cxx: the pick of `Get`, and the balancer afterwards.
use cm4all_beng_proxy.Common.{
  ℕ, zero, suc, ◌+◌, ◌≤◌, ◌<◌, ◌≡◌, inl, inr, refl, sym, ap, ◌∙◌, Bool, true, false, some, arith,
  ◌==◌, Bool-cases, ltb, leb, ◌%◌, if◌then◌else◌, ==_iff, ==_refl,
}
use cm4all_beng_proxy.Cluster.{
  Check, following, RoundRobinBalancer, unsigned_mod, next_member, get_loop, get,
}
use cm4all_beng_proxy.Cluster.First.{
  IsFirst, around, around-zero, around-suc, around-lt, around-ne-start, around_self,
}
use cm4all_beng_proxy.Cluster.Pick.{always, none_passes, one_more}

-- `next` names a member, and the size of the list fits an unsigned.
pub record IsValid (n : ℕ) (b : RoundRobinBalancer) : Type 0 where
  pub next_lt : b.next < n
  pub size_le : n ≤ unsigned_mod

next_member-following :
    (n : ℕ) (b : RoundRobinBalancer)
    → 1 < n
    → IsValid n b
    → next_member n b ≡ some (b.next, record { next = following n b.next })
unfolding next_member following
next_member-following n b two v =
    let asserted : ltb n 2 ≡ false = ground arith in
    let inside : ltb b.next n ≡ true = ground (arith, v.next_lt) in
    let same : (if leb n ((b.next + 1) % unsigned_mod) then 0 else (b.next + 1) % unsigned_mod)
        ≡ (if b.next + 1 == n then 0 else b.next + 1) =
      ground arith in
    rw (asserted, inside, same) refl

pub following-lt : (n i : ℕ) → i < n → following n i < n
unfolding following
following-lt n i h = ground arith

module _ (check : Check) (n s : ℕ) (s_lt : s < n) (two : 1 < n) (size : n ≤ unsigned_mod)
    (fade : Bool) where
  get_loop-IsFirst :
      (fuel k ret : ℕ)
      → ret ≡ around n s k
      → k < n
      → k + fuel ≡ n
      → ((j : ℕ) → j < k → check (around n s j) fade ≡ false)
      → (r : ℕ) × (get_loop check n fade s fuel ret (record { next = following n ret })
          ≡ some (r, record { next = following n r }))
        × IsFirst n s (always check fade) r
  unfolding get_loop
  get_loop-IsFirst zero k ret at near enough failed = absurd (omega arith)
  get_loop-IsFirst (suc fuel) k ret at near enough failed = elim (Bool-cases (check ret fade)) [
    | inl pass ↦ (
      ret,
      rw pass,
      record { distance = k; near = near; place = at; before = failed; verdict = inl pass },
    )
    | inr fail ↦
        let fails : check (around n s k) fade ≡ false = rw (← at) fail in
        let step : around n s (k + 1) ≡ following n ret = rw at (around-suc n s k (omega arith)) in
        let inside : following n ret < n =
          rw at (following-lt n _ (around-lt n s k (omega arith))) in
        let go : next_member n (record { next = following n ret })
            ≡ some (following n ret, record { next = following n (following n ret) }) =
          next_member-following n _ two (record { next_lt = inside; size_le = size }) in
        elim (Bool-cases (k + 1 == n)) [
          | inl last ↦
              let back : following n ret ≡ s =
                sym step ∙ ap (around n s) ((==_iff _ n).0 last) ∙ around_self n s s_lt in
              (
                s,
                rw fail (rw go (rw back (rw (==_refl s)))),
                none_passes check n s s_lt (always check fade) (λ j h.
                    one_more check n s s_lt (always check fade) k failed fails j (ground arith)),
              )
          | inr more ↦
              let further : k + 1 < n = ground arith in
              let on : (following n ret == s) ≡ false =
                rw (← step) (around-ne-start n s (k + 1) s_lt (omega arith) further) in
              rw fail (
                rw go (
                  rw on (
                    get_loop-IsFirst fuel (k + 1) (following n ret) (sym step) further (omega arith)
                      (one_more check n s s_lt (always check fade) k failed fails))))
        ]
  ]

-- `Get` comes to an end on a list of two members at least, as `Next` asserts, where `next` names a
-- member. It returns the first member that passes, from the one that `next` names on and round the list, and that first one if none passes; afterwards `next` names the member
-- behind the returned one.
pub get-IsFirst :
    (check : Check) (n : ℕ) (fade : Bool) (b : RoundRobinBalancer)
    → 1 < n
    → IsValid n b
    → (r : ℕ) × (get check n fade b ≡ some (r, record { next = following n r }))
      × IsFirst n b.next (always check fade) r
unfolding get
get-IsFirst check n fade b two v = rw (next_member-following n b two v) (
    get_loop-IsFirst check n b.next v.next_lt two v.size_le fade n 0 b.next
      (sym (around-zero n b.next v.next_lt)) (omega arith) (omega arith) (λ j h. elim h [ ]))
