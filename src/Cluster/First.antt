-- ===== src/Cluster/First.antt =====
-- The first member of a list that passes a test, counted round the list (src/cluster).
use cm4all_beng_proxy.Cluster.{following}
use native.Mathlib.Decide.{dec_lt}
use native.Mathlib.Nat.{add_assoc, mod-add-mod, mod-lt, mod-eq_of_lt, mod-eq-sub-mod, mod-add-div}
use cm4all_beng_proxy.Common.{
  sym, ap, ◌∙◌, Bool-cases, ==_iff, ℕ, ◌+◌, ◌-◌, ◌%◌, ◌≤◌, ◌<◌, ◌≡◌, ◌⊎◌, inl, inr, Bool, true,
  false, arith, if◌then◌else◌, ◌==◌,
}

-- The member `k` places behind `start` in a ring of `n`.
pub around : ℕ → ℕ → ℕ → ℕ
around n start k = (start + k) % n

-- The pick `r` is the first of the `n` members from `start` on that passes its test; if none
-- passes, it is `start`. The test may depend on how far the member is from `start`.
pub record IsFirst (n start : ℕ) (test : ℕ → ℕ → Bool) (r : ℕ) : Type 0 where
  pub distance : ℕ
  pub near : distance < n
  pub place : r ≡ around n start distance
  pub before : (j : ℕ) → j < distance → test (around n start j) j ≡ false
  pub verdict :
      (test r distance ≡ true)
      ⊎ ((distance ≡ 0) × ((j : ℕ) → j < n → test (around n start j) j ≡ false))

pub around-zero : (n s : ℕ) → s < n → around n s 0 ≡ s
unfolding around
around-zero n s h = grind arith

pub around-lt : (n s k : ℕ) → 0 < n → around n s k < n
unfolding around
around-lt n s k h = grind arith

-- One place further, as the loops step.
mod_step : (n x : ℕ) → 0 < n → (x + 1) % n ≡ (if x % n + 1 == n then 0 else x % n + 1)
mod_step n x h = elim (Bool-cases (x % n + 1 == n)) [
  | inl e ↦
      let last : x % n + 1 ≡ n = (==_iff _ _).0 e in
      rw (e, ← mod-add-mod x n 1, last) (grind (arith, mod-add-div n n))
  | inr e ↦
      let inner : x % n + 1 < n = ground (arith, mod-lt x h) in
      rw (e, ← mod-add-mod x n 1, mod-eq_of_lt inner)
]

pub around-suc : (n s k : ℕ) → 0 < n → around n s (k + 1) ≡ following n (around n s k)
unfolding around following
around-suc n s k h = ap (λ x. x % n) (sym (add_assoc s k 1)) ∙ mod_step n (s + k) h

pub around_cases :
    (n s k : ℕ)
    → s < n
    → k ≤ n
    → ((s + k < n) × (around n s k ≡ s + k)) ⊎ ((n ≤ s + k) × (around n s k ≡ s + k - n))
unfolding around
around_cases n s k h q = elim (dec_lt (s + k) n) [
  | yes p ↦ inl (p, mod-eq_of_lt p)
  | no p ↦
      let le : n ≤ s + k = omega arith in
      let small : s + k - n < n = omega arith in inr (le, mod-eq-sub-mod le ∙ mod-eq_of_lt small)
]

pub around-ne-start : (n s k : ℕ) → s < n → 0 < k → k < n → (around n s k == s) ≡ false
around-ne-start n s k h p q = ground (arith, around_cases n s k h)

pub around_self : (n s : ℕ) → s < n → around n s n ≡ s
around_self n s h = ground (arith, around_cases n s n h)
