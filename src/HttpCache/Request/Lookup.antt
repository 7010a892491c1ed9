-- ===== src/HttpCache/Request/Lookup.antt =====
-- Exactly which requests http_cache_request_evaluate of src/http/cache/RFC.cxx lets the cache
-- look up.
use cm4all_beng_proxy.Common.{
  ℕ, Bool, true, false, ◌||◌, not, Option, none, some, List, [], ◌∷◌, Bytes, codes, if◌then◌else◌,
  ◌==◌, ◌>>=◌, ◌≡◌, ◌↔◌, ◌⊎◌, inl, inr, refl, sym, ap, ◌∙◌, All, Bool-cases, ==_iff, arith,
}
use cm4all_beng_proxy.StringMap.{StringMap, Trie, get, contains}
use cm4all_beng_proxy.StringMap.Laws.{IsTrie, equal_false}
use cm4all_beng_proxy.HttpCache.{Util, RequestInfo}
use cm4all_beng_proxy.HttpCache.Request.{
  Methods, request_directives, pragma_no_cache, request_info, request_control, request_evaluate,
}
use cm4all_beng_proxy.HttpCache.Response.Steps.{Returns, guard_iff, bind_iff}

obeyed : {P : Type 0} → (true ≡ false) ⊎ P → P
obeyed (inl e) = absurd (cc e)
obeyed (inr p) = p

abbrev fourth : Bytes → ℕ
fourth (a ∷ b ∷ c ∷ d ∷ s) = d
fourth _ = 0

or-false : (a b : Bool) → (not a || b) ≡ false → (a ≡ true) × (b ≡ false)
or-false true b e = (refl, e)
or-false false b e = absurd (cc e)

false-or : (a b : Bool) → a ≡ true → b ≡ false → (not a || b) ≡ false
false-or true b e f = f
false-or false b e f = absurd (cc e)

module _ (t : Trie) where
  -- Without "obey", nothing in the directives ends the loop.
  directives_ignored :
      (ss : List Bytes) (no_cache only : Bool)
      → Returns (request_directives t false ss no_cache only)
  unfolding request_directives
  directives_ignored [] no_cache only = ((no_cache, only), refl)
  directives_ignored (s ∷ ss) no_cache only =
      elim (Bool-cases (t.equal s (codes "only-if-cached"))) [
        | inl e ↦ rw e (directives_ignored ss no_cache true)
        | inr e ↦ rw e (directives_ignored ss no_cache only)
      ]

  abbrev pub IsStorable : Bytes → Type 0
  IsStorable s = t.equal s (codes "no-store") ≡ false

  module _ (laws : IsTrie t) where
    differs :
        (s a : Bytes) → t.equal s a ≡ true → t.equal (codes "no-store") a ≡ false → IsStorable s
    differs s a e f = elim (Bool-cases (t.equal s (codes "no-store"))) [
      | inl g ↦ absurd (
          cc (
            f,
            (laws.equal_iff (codes "no-store") a).1
                (sym ((laws.equal_iff s (codes "no-store")).0 g) ∙ (laws.equal_iff s a).0 e),
          ))
      | inr g ↦ g
    ]

    directives_iff :
        (ss : List Bytes) (no_cache only : Bool)
        → Returns (request_directives t true ss no_cache only) ↔ All IsStorable ss
    unfolding request_directives
    directives_iff [] no_cache only = ((λ r. tt), (λ a. ((no_cache, only), refl)))
    directives_iff (s ∷ ss) no_cache only = elim (Bool-cases (t.equal s (codes "only-if-cached"))) [
      | inl e ↦
          let (there, back) = directives_iff ss no_cache true in
          rw e (
            (λ r. (differs s (codes "only-if-cached") e no_store_only, there r)),
            (λ (n, a). back a),
          )
      | inr e ↦ elim (Bool-cases (t.equal s (codes "no-cache"))) [
        | inl f ↦
            let (there, back) = directives_iff ss true only in
            rw (e, f)
              ((λ r. (differs s (codes "no-cache") f no_store_cache, there r)), (λ (n, a). back a))
        | inr f ↦
            let (there, back) = directives_iff ss no_cache only in
            let (into, out) =
              guard_iff (t.equal s (codes "no-store"))
                (request_directives t true ss no_cache only) in
            rw (e, f) ((λ r. let (n, r1) = into r in (n, there r1)), (λ (n, a). out (n, back a)))
      ]
    ]
      where
        no_store_only : t.equal (codes "no-store") (codes "only-if-cached") ≡ false
        no_store_only =
            equal_false t laws (codes "no-store") (codes "only-if-cached") (λ e. absurd (cc e))

        no_store_cache : t.equal (codes "no-store") (codes "no-cache") ≡ false
        no_store_cache =
            equal_false t laws (codes "no-store") (codes "no-cache")
              (λ e. absurd (omega (arith, ap fourth e)))

  module _ (u : Util) where
    -- What the client says of caching does not forbid it: no directive is "no-store", or without
    -- "Cache-Control" there is no "Pragma: no-cache"; or it is not to be obeyed.
    abbrev pub AllowsLookup : Bool → StringMap → Option Bytes → Type 0
    AllowsLookup obey headers none =
        (obey ≡ false) ⊎ (pragma_no_cache t (get t headers (codes "pragma")) ≡ false)
    AllowsLookup obey headers (some cache_control) =
        (obey ≡ false) ⊎ All IsStorable (u.directives cache_control)

    control_iff :
        (laws : IsTrie t) (obey : Bool) (headers : StringMap) (cache_control : Option Bytes)
        → Returns (request_control t u obey headers cache_control)
          ↔ AllowsLookup obey headers cache_control
    unfolding request_control
    control_iff laws false headers none = ((λ r. inl refl), (λ a. ((false, false), refl)))
    control_iff laws true headers none =
        let (there, back) =
          guard_iff (pragma_no_cache t (get t headers (codes "pragma"))) (some (false, false)) in
        ((λ r. inr (there r).0), (λ a. back (obeyed a, ((false, false), refl))))
    control_iff laws false headers (some cache_control) =
        ((λ r. inl refl), (λ a. directives_ignored (u.directives cache_control) false false))
    control_iff laws true headers (some cache_control) =
        let (there, back) = directives_iff laws (u.directives cache_control) false false in
        ((λ r. inr (there r)), (λ a. back (obeyed a)))

    -- With strings that are compared as documented: a request is looked up in the cache exactly if
    -- its method is GET, it has no body and neither "Range" nor "Authorization", and either what
    -- the client says of caching is not obeyed, or its "Cache-Control" has no "no-store", or it has
    -- no "Cache-Control" and no "Pragma: no-cache".
    pub request_evaluate_iff :
        (laws : IsTrie t) (ms : Methods) (method : ℕ) (is_remote has_query_string : Bool)
        (headers : StringMap) (obey_no_cache has_request_body : Bool)
        → Returns (
            request_evaluate t u ms method is_remote has_query_string headers obey_no_cache
              has_request_body)
          ↔ ((method ≡ ms.get_method)
              × (has_request_body ≡ false)
              × (contains t headers (codes "range") ≡ false)
              × (contains t headers (codes "authorization") ≡ false)
              × AllowsLookup obey_no_cache headers (get t headers (codes "cache-control")))
    unfolding request_evaluate
    request_evaluate_iff laws ms method is_remote has_query_string headers obey has_body =
        let control = request_control t u obey headers (get t headers (codes "cache-control")) in
        let finish : Bool × Bool → Option RequestInfo =
          λ flags. some (request_info t is_remote has_query_string headers flags) in
        let authorized =
          if contains t headers (codes "authorization") then none else control >>= finish in
        let ranged = if contains t headers (codes "range") then none else authorized in
        let by_method = guard_iff (not (method == ms.get_method) || has_body) ranged in
        let by_range = guard_iff (contains t headers (codes "range")) authorized in
        let by_user = guard_iff (contains t headers (codes "authorization")) (control >>= finish) in
        let by_control = bind_iff finish control in
        let allowed = control_iff laws obey headers (get t headers (codes "cache-control")) in
        (
          (λ r.
              let (m, r1) = by_method.0 r in
              let (g, r2) = by_range.0 r1 in
              let (a, r3) = by_user.0 r2 in
              let (flags, e, r4) = by_control.0 r3 in
              let (get_only, bodyless) = or-false (method == ms.get_method) has_body m in
              ((==_iff method ms.get_method).0 get_only, bodyless, g, a, allowed.0 (flags, e))),
          (λ (m, b, g, a, l).
              let (flags, e) = allowed.1 l in
              by_method.1 (
                false-or (method == ms.get_method) has_body ((==_iff method ms.get_method).1 m) b,
                by_range.1 (
                  g,
                  by_user.1 (
                    a,
                    by_control.1
                        (flags, e, (request_info t is_remote has_query_string headers flags, refl)),
                  ),
                ),
              )),
        )
