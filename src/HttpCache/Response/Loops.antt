-- ===== src/HttpCache/Response/Loops.antt =====
-- The loops of http_cache_response_evaluate of src/http/cache/RFC.cxx over the directives and over
-- the "Vary" headers.
use cm4all_beng_proxy.Common.{
  ℕ, Bool, true, false, Option, none, some, List, [], ◌∷◌, Bytes, codes, if◌then◌else◌, ℤ, ◌≡◌, ◌↔◌,
  ◌⊎◌, inl, inr, refl, ap, All,
}
use cm4all_beng_proxy.StringMap.{Item, StringMap, Trie}
use cm4all_beng_proxy.HttpCache.{Util}
use cm4all_beng_proxy.HttpCache.Response.Steps.{guard_eq_iff, or_false}
use cm4all_beng_proxy.HttpCache.Response.{
  forbids, max_age_value, directive_loop, is_blank, vary_loop, concat_vary,
}

-- Every directive is read, and the last "max-age" counts.
unfoldable pub ages : Util → (ℕ → ℤ) → List Bytes → ℤ × ℕ → ℤ × ℕ
unfolding max_age_value
ages u clock [] found = found
ages u clock (s ∷ ss) found =
    ages u clock ss (max_age_value u clock (u.skip_prefix s (codes "max-age=")) found)

-- The texts in front of the others, apart from empty ones, with ", " between them.
unfoldable pub joined : Option Bytes → StringMap → Option Bytes
unfolding concat_vary is_blank
joined vary [] = vary
joined vary (i ∷ is) =
    joined (if is_blank i.value then vary else some (concat_vary vary i.value)) is

module _ (t : Trie) (u : Util) where
  -- It does not begin with "private", and is neither "no-cache" nor "no-store".
  abbrev pub Permitted : Bytes → Type 0
  Permitted s =
      (u.starts_with s (codes "private") ≡ false)
      × (t.equal s (codes "no-cache") ≡ false)
      × (t.equal s (codes "no-store") ≡ false)

  forbids_iff : (s : Bytes) → (forbids t u s ≡ false) ↔ Permitted s
  unfolding forbids
  forbids_iff s =
      or_false (u.starts_with s (codes "private")) (t.equal s (codes "no-cache"))
        (t.equal s (codes "no-store"))

  pub directive_iff :
      (clock : ℕ → ℤ) (ss : List Bytes) (found p : ℤ × ℕ)
      → (directive_loop t u clock ss found ≡ some p)
        ↔ (All Permitted ss × (ages u clock ss found ≡ p))
  unfolding directive_loop ages
  directive_iff clock [] found p = ((λ e. (tt, cc e)), (λ (a, e). ap some e))
  directive_iff clock (s ∷ ss) found p =
      let next = max_age_value u clock (u.skip_prefix s (codes "max-age=")) found in
      let (there, back) = guard_eq_iff (forbids t u s) (directive_loop t u clock ss next) p in
      let (into, out) = directive_iff clock ss next p in
      (
        (λ e. let (f, g) = there e in let (a, h) = into g in (((forbids_iff s).0 f, a), h)),
        (λ ((f, a), h). back ((forbids_iff s).1 f, out (a, h))),
      )

module _ (t : Trie) where
  -- An empty "Vary" header is skipped, whatever it is compared with.
  abbrev pub IsVaryable : Item → Type 0
  IsVaryable i = (is_blank i.value ≡ true) ⊎ (t.equal i.value (codes "*") ≡ false)

  pub vary_iff :
      (vary : Option Bytes) (is : StringMap) (v : Option Bytes)
      → (vary_loop t vary is ≡ some v) ↔ (All IsVaryable is × (joined vary is ≡ v))
  unfolding vary_loop joined
  vary_iff vary [] v = ((λ e. (tt, cc e)), (λ (a, e). ap some e))
  vary_iff vary (i ∷ is) v = go (is_blank i.value) refl (λ w. vary_iff w is v)
    where
      starless :
          is_blank i.value ≡ false
          → (is_blank i.value ≡ true) ⊎ (t.equal i.value (codes "*") ≡ false)
          → t.equal i.value (codes "*") ≡ false
      starless e (inl f) = absurd (cc (e, f))
      starless e (inr f) = f

      go :
          (b : Bool)
          → is_blank i.value ≡ b
          → ((w : Option Bytes)
              → (vary_loop t w is ≡ some v) ↔ (All IsVaryable is × (joined w is ≡ v)))
          → ((if b
                then vary_loop t vary is
                else if t.equal i.value (codes "*")
                then none
                else vary_loop t (some (concat_vary vary i.value)) is)
              ≡ some v)
            ↔ ((((is_blank i.value ≡ true) ⊎ (t.equal i.value (codes "*") ≡ false))
                  × All IsVaryable is)
                × (joined (if b then vary else some (concat_vary vary i.value)) is ≡ v))
      go true e rest_iff =
          let (into, out) = rest_iff vary in
          ((λ f. let (a, g) = into f in ((inl e, a), g)), (λ ((f, a), g). out (a, g)))
      go false e rest_iff =
          let rest = some (concat_vary vary i.value) in
          let (there, back) = guard_eq_iff (t.equal i.value (codes "*")) (vary_loop t rest is) v in
          let (into, out) = rest_iff rest in
          (
            (λ f. let (n, g) = there f in let (a, h) = into g in ((inr n, a), h)),
            (λ ((f, a), h). back (starless e f, out (a, h))),
          )
