-- ===== src/Common/Counts.antt =====
-- Lists of objects, each a number: how often one is in the list, and IntrusiveList::erase().
use cm4all_beng_proxy.Common.Tests.{Bool-cases, if◌then◌else◌, ◌==◌, ==_iff}
use cm4all_beng_proxy.Common.Lists.{length}
use Prim.Native.Nat.{ℕ, suc, ◌+◌, ◌-◌, ◌<◌}
use mathlib.Core.Path.{◌≡◌}
use mathlib.Core.Logic.{inl, inr}
use mathlib.Core.List.{List, [], ◌∷◌, ◌++◌}
use native.Mathlib.Omega.{arith}

-- `list.erase(list.iterator_to(job))`
unfoldable pub erase : ℕ → List ℕ → List ℕ
erase job [] = []
erase job (j ∷ jobs) = let rest = erase job jobs in if job == j then jobs else j ∷ rest

-- How often the job is in the list.
unfoldable pub count : ℕ → List ℕ → ℕ
count job [] = 0
count job (j ∷ jobs) = let rest = count job jobs in if job == j then suc rest else rest

pub count-append :
    (job : ℕ) (xs : List ℕ) (j : ℕ)
    → count job (xs ++ j ∷ []) ≡ count job xs + (if job == j then 1 else 0)
unfolding count
count-append job [] j = ground arith
count-append job (x ∷ xs) j = ground (arith, count-append job xs j)

pub count-erase :
    (job : ℕ) (xs : List ℕ) (j : ℕ)
    → count job (erase j xs) ≡ count job xs - (if job == j then 1 else 0)
unfolding count erase
count-erase job [] j = ground arith
count-erase job (x ∷ xs) j =
    ground (arith, count-erase job xs j, ==_iff job x, ==_iff j x, ==_iff job j)

pub length-erase : (j : ℕ) (xs : List ℕ) → 0 < count j xs → suc (length (erase j xs)) ≡ length xs
unfolding count erase
length-erase j [] h = absurd (omega arith)
length-erase j (x ∷ xs) h = ground (arith, length-erase j xs)

unfoldable pub sum_of : (ℕ → ℕ) → List ℕ → ℕ
sum_of f [] = 0
sum_of f (x ∷ xs) = f x + sum_of f xs

pub sum_of-append : (f : ℕ → ℕ) (xs : List ℕ) (j : ℕ) → sum_of f (xs ++ j ∷ []) ≡ sum_of f xs + f j
unfolding sum_of
sum_of-append f [] j = omega arith
sum_of-append f (x ∷ xs) j = omega (arith, sum_of-append f xs j)

pub sum_of-erase :
    (f : ℕ → ℕ) (xs : List ℕ) (j : ℕ) → 0 < count j xs → sum_of f (erase j xs) + f j ≡ sum_of f xs
unfolding sum_of count erase
sum_of-erase f [] j h = absurd (omega arith)
sum_of-erase f (x ∷ xs) j h = elim (Bool-cases (j == x)) [
  | inl e ↦ let same : j ≡ x = (==_iff j x).0 e in rw (e, same) (omega arith)
  | inr e ↦ ground (arith, sum_of-erase f xs j)
]
