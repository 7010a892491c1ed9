-- ===== src/HttpCache/Response/Steps.antt =====
-- Early returns and chains of optional results, as in http_cache_response_evaluate of
-- src/http/cache/RFC.cxx: when there is a result.
use cm4all_beng_proxy.Common.{
  Bool, true, false, ◌&&◌, ◌||◌, not, Option, none, some, if◌then◌else◌, ◌>>=◌, ◌≡◌, ◌↔◌, ◌⊎◌, inl,
  inr, refl,
}

abbrev pub Returns {ℓ} : {A : Type ℓ} → Option A → Type ℓ
Returns {A = A} o = (a : A) × (o ≡ some a)

module _ {ℓ} {A : Type ℓ} where
  none-some : (a : A) → none ≡ some a → ⊥
  none-some a e = absurd (cc e)

  pub guard_eq_iff :
      (b : Bool) (o : Option A) (a : A)
      → ((if b then none else o) ≡ some a) ↔ ((b ≡ false) × (o ≡ some a))
  guard_eq_iff true o a = ((λ e. absurd (none-some a e)), (λ (e, f). absurd (cc e)))
  guard_eq_iff false o a = ((λ e. (refl, e)), (λ (e, f). f))

  pub guard_iff :
      (b : Bool) (o : Option A) → Returns (if b then none else o) ↔ ((b ≡ false) × Returns o)
  guard_iff true o = ((λ (a, e). absurd (none-some a e)), (λ (e, r). absurd (cc e)))
  guard_iff false o = ((λ r. (refl, r)), (λ r. r.1))

module _ {ℓ κ} {A : Type ℓ} {B : Type κ} (f : A → Option B) where
  returned : (a c : A) → some a ≡ some c → Returns (f c) → Returns (f a)
  returned a c e r = let same : a ≡ c = cc e in rw same r

  pub bind_iff : (o : Option A) → Returns (o >>= f) ↔ ((a : A) × (o ≡ some a) × Returns (f a))
  bind_iff none = ((λ (b, e). absurd (none-some b e)), (λ (a, e, r). absurd (none-some a e)))
  bind_iff (some a) = ((λ r. (a, refl, r)), (λ (c, e, r). returned a c e r))

pub not-true : (b : Bool) → not b ≡ false → b ≡ true
not-true true e = refl
not-true false e = absurd (cc e)

some_if : {A : Type 0} (b : Bool) (x y : A) → Returns (if b then some x else some y)
some_if true x y = (x, refl)
some_if false x y = (y, refl)

true-false : true ≡ false → ⊥
true-false e = absurd (cc e)

-- It may be stored, if it has an expiry time, if the caller is eager, or if there is no query
-- string and it can be revalidated; each is a test of the code.
abbrev pub IsKeepable : Bool → Bool → Bool → Bool → Bool → Type 0
IsKeepable timed eager query unmodified untagged =
    (timed ≡ true)
    ⊎ (eager ≡ true)
    ⊎ ((query ≡ false) × ((unmodified ≡ false) ⊎ (untagged ≡ false)))

no_query : {P : Type 0} → (false ≡ true) ⊎ (false ≡ true) ⊎ ((true ≡ false) × P) → ⊥
no_query (inl e) = absurd (cc e)
no_query (inr (inl e)) = absurd (cc e)
no_query (inr (inr (e, p))) = true-false e

no_validator : IsKeepable false false false true true → ⊥
no_validator (inl e) = absurd (cc e)
no_validator (inr (inl e)) = absurd (cc e)
no_validator (inr (inr (e, inl f))) = true-false f
no_validator (inr (inr (e, inr f))) = true-false f

pub keep_iff :
    {A : Type 0} (timed eager query unmodified untagged : Bool) (x y : A)
    → (((query && not eager && not timed) ≡ false)
        × Returns (
            if not timed && unmodified && untagged then if eager then some x else none else some y))
      ↔ IsKeepable timed eager query unmodified untagged
keep_iff true eager query unmodified untagged x y =
    ((λ r. inl refl), (λ k. (blank query eager, (y, refl))))
  where
    blank : (q e : Bool) → (q && not e && false) ≡ false
    blank true true = refl
    blank true false = refl
    blank false true = refl
    blank false false = refl
keep_iff false true true unmodified untagged x y =
    ((λ r. inr (inl refl)), (λ k. (refl, some_if (unmodified && untagged) x y)))
keep_iff false true false unmodified untagged x y =
    ((λ r. inr (inl refl)), (λ k. (refl, some_if (unmodified && untagged) x y)))
keep_iff false false true unmodified untagged x y =
    ((λ (e, r). absurd (cc e)), (λ k. absurd (no_query k)))
keep_iff false false false false untagged x y =
    ((λ r. inr (inr (refl, inl refl))), (λ k. (refl, (y, refl))))
keep_iff false false false true false x y =
    ((λ r. inr (inr (refl, inr refl))), (λ k. (refl, (y, refl))))
keep_iff false false false true true x y =
    ((λ (e, (r, f)). absurd (none-some r f)), (λ k. absurd (no_validator k)))

pub or_false : (a b c : Bool) → ((a || b || c) ≡ false) ↔ ((a ≡ false) × (b ≡ false) × (c ≡ false))
or_false true b c = ((λ e. absurd (cc e)), (λ (e, f, g). absurd (cc e)))
or_false false true c = ((λ e. absurd (cc e)), (λ (e, f, g). absurd (cc f)))
or_false false false c = ((λ e. (refl, refl, e)), (λ (e, f, g). g))
