-- ===== src/Queue/Moves.antt =====
-- src/util/LimitedConcurrencyQueue.cxx: a job's state and its place in the lists change together.
use cm4all_beng_proxy.Common.{
  ℕ, ◌≡◌, ap, inl, inr, List, [], ◌∷◌, ◌++◌, ◌==◌, arith, Bool-cases, erase, count, count-append,
  count-erase, ==_iff,
}
use cm4all_beng_proxy.Queue.{JobState, set_state}

-- A job moves from one list to another.
pub pushed :
    (s : ℕ → JobState) (n : JobState → ℕ) (xs : List ℕ) (j : ℕ) (to : JobState)
    → ((k : ℕ) → count k xs ≡ n (s k))
    → n (s j) ≡ 0
    → n to ≡ 1
    → (k : ℕ) → count k (xs ++ j ∷ []) ≡ n (set_state s j to k)
unfolding set_state
pushed s n xs j to h out in_ k = elim (Bool-cases (k == j)) [
  | inl e ↦
      let same : k ≡ j = (==_iff k j).0 e in
      ground (arith, count-append k xs j, h k, ap (λ i. n (s i)) same)
  | inr e ↦ ground (arith, count-append k xs j, h k)
]

pub erased :
    (s : ℕ → JobState) (n : JobState → ℕ) (xs : List ℕ) (j : ℕ) (to : JobState)
    → ((k : ℕ) → count k xs ≡ n (s k))
    → n (s j) ≡ 1
    → n to ≡ 0
    → (k : ℕ) → count k (erase j xs) ≡ n (set_state s j to k)
unfolding set_state
erased s n xs j to h out in_ k = elim (Bool-cases (k == j)) [
  | inl e ↦
      let same : k ≡ j = (==_iff k j).0 e in
      ground (arith, count-erase k xs j, h k, ap (λ i. n (s i)) same)
  | inr e ↦ ground (arith, count-erase k xs j, h k)
]

-- A list that the job neither enters nor leaves.
pub untouched :
    (s : ℕ → JobState) (n : JobState → ℕ) (xs : List ℕ) (j : ℕ) (to : JobState)
    → ((k : ℕ) → count k xs ≡ n (s k))
    → n (s j) ≡ n to
    → (k : ℕ) → count k xs ≡ n (set_state s j to k)
unfolding set_state
untouched s n xs j to h out k = elim (Bool-cases (k == j)) [
  | inl e ↦ let same : k ≡ j = (==_iff k j).0 e in ground (arith, h k, ap (λ i. n (s i)) same)
  | inr e ↦ ground (arith, h k)
]
