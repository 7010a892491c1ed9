-- ===== src/HttpCache/Response/Ages.antt =====
-- The tests of http_cache_response_evaluate of src/http/cache/RFC.cxx on the status and on the size,
-- and the expiry time that "max-age" gives.
use cm4all_beng_proxy.Common.{
  ℕ, zero, suc, ◌+◌, ◌*◌, ◌≤◌, true, false, Option, none, some, List, [], ◌∷◌, ◌++◌, Bytes, codes,
  length, leb, ltb, if◌then◌else◌, ℤ, pos, negsuc, ◌≡◌, ◌↔◌, ◌⊎◌, inl, inr, refl, sym, ap, ◌∙◌,
  arith, Bool-cases,
}
use cm4all_beng_proxy.HttpCache.{second, Util}
use cm4all_beng_proxy.HttpCache.Response.Loops.{ages}
use cm4all_beng_proxy.HttpCache.Response.{status_cacheable, too_large, max_age_value}

-- the statuses that may be stored
abbrev pub IsStorable : ℕ → Type 0
IsStorable status =
    (status ≡ 200)
    ⊎ (status ≡ 203)
    ⊎ (status ≡ 206)
    ⊎ (status ≡ 300)
    ⊎ (status ≡ 301)
    ⊎ (status ≡ 410)

-- a size of no more than 512 kB; one that is not known is -1
abbrev pub IsSmall : ℤ → Type 0
IsSmall (pos n) = n ≤ 512 * 1024
IsSmall (negsuc n) = Unit

pub status_iff : (status : ℕ) → (status_cacheable status ≡ true) ↔ IsStorable status
unfolding status_cacheable
status_iff status = (λ e. ground (arith, e), λ e. ground (arith, e))

pub size_iff : (n : ℤ) → (too_large n ≡ false) ↔ IsSmall n
unfolding too_large
size_iff (pos n) = (λ e. ground (arith, e), λ e. ground (arith, e))
size_iff (negsuc zero) = (λ e. tt, λ e. refl)
size_iff (negsuc (suc n)) = (λ e. tt, λ e. ground arith)

abbrev positive : ℤ → List ℕ
positive (pos zero) = []
positive (pos (suc k)) = suc k ∷ []
positive (negsuc k) = []

module _ (u : Util) where
  -- the seconds of a "max-age", if there are fewer than 16 digits and the number is positive
  abbrev age_of : Option Bytes → List ℕ
  age_of none = []
  age_of (some value) = if leb 16 (length value) then [] else positive (u.atoi value)

  -- the positive "max-age" of all directives
  unfoldable pub max_ages : List Bytes → List ℕ
  max_ages [] = []
  max_ages (s ∷ ss) = age_of (u.skip_prefix s (codes "max-age=")) ++ max_ages ss

-- the expiry time after some of them, and how often the clock was read
abbrev pub after : (ℕ → ℕ) → List ℕ → ℤ × ℕ → ℤ × ℕ
after ticks [] p = p
after ticks (a ∷ ages_left) (e, n) = after ticks ages_left (pos (ticks n + a * second), suc n)

after-append :
    (ticks : ℕ → ℕ) (ages_left bs : List ℕ) (p : ℤ × ℕ)
    → after ticks (ages_left ++ bs) p ≡ after ticks bs (after ticks ages_left p)
after-append ticks [] bs p = refl
after-append ticks (a ∷ ages_left) bs (e, n) =
    after-append ticks ages_left bs (pos (ticks n + a * second), suc n)

pub after_count :
    (ticks : ℕ → ℕ) (ages_left : List ℕ) (p : ℤ × ℕ)
    → (after ticks ages_left p).1 ≡ p.1 + length ages_left
after_count ticks [] p = omega arith
after_count ticks (a ∷ ages_left) (e, n) =
    omega (arith, after_count ticks ages_left (pos (ticks n + a * second), suc n))

pub after_pos :
    (ticks : ℕ → ℕ) (ages_left : List ℕ) (x n : ℕ)
    → (y : ℕ) × ((after ticks ages_left (pos x, n)).0 ≡ pos y)
after_pos ticks [] x n = (x, refl)
after_pos ticks (a ∷ ages_left) x n = after_pos ticks ages_left (ticks n + a * second) (suc n)

module _ (u : Util) (ticks : ℕ → ℕ) where
  max_age_at :
      (value : Bytes) (p : ℤ × ℕ) (z : ℤ)
      → u.atoi value ≡ z
      → max_age_value u (λ n. pos (ticks n)) (some value) p ≡ after ticks (age_of u (some value)) p
  unfolding max_age_value
  max_age_at value (e, n) (pos zero) is = elim (Bool-cases (leb 16 (length value))) [
    | inl long ↦ rw long refl
    | inr short ↦ rw (short, is) refl
  ]
  max_age_at value (e, n) (pos (suc k)) is = elim (Bool-cases (leb 16 (length value))) [
    | inl long ↦ rw long refl
    | inr short ↦ let more : ltb 0 (suc k) ≡ true = ground arith in rw (short, is) (rw more refl)
  ]
  max_age_at value (e, n) (negsuc k) is = elim (Bool-cases (leb 16 (length value))) [
    | inl long ↦ rw long refl
    | inr short ↦ rw (short, is) refl
  ]

  max_age_lem :
      (value : Option Bytes) (p : ℤ × ℕ)
      → max_age_value u (λ n. pos (ticks n)) value p ≡ after ticks (age_of u value) p
  unfolding max_age_value
  max_age_lem none (e, n) = refl
  max_age_lem (some value) p = max_age_at value p (u.atoi value) refl

  pub ages_lem :
      (ss : List Bytes) (p : ℤ × ℕ)
      → ages u (λ n. pos (ticks n)) ss p ≡ after ticks (max_ages u ss) p
  unfolding ages max_ages
  ages_lem [] p = refl
  ages_lem (s ∷ ss) p =
      ages_lem ss _
      ∙ ap (after ticks (max_ages u ss)) (max_age_lem (u.skip_prefix s (codes "max-age=")) p)
      ∙ sym (after-append ticks (age_of u (u.skip_prefix s (codes "max-age="))) (max_ages u ss) p)
