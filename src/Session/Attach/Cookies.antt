-- ===== src/Session/Attach/Cookies.antt =====
-- CookieJar::MoveFrom: what becomes of two jars.
use cm4all_beng_proxy.Common.{
  ◌≡◌, ◌≢◌, none, some, Bytes, refl, sym, ap, ◌∙◌, Bool, true, false, ◌&&◌, ◌||◌, ◌↔◌, List, [],
  ◌∷◌, ◌++◌, if◌then◌else◌, arith, append_assoc, append-nil, All, Bool-cases, inl, inr,
}
use cm4all_beng_proxy.Session.{Text, Cookie}
use cm4all_beng_proxy.Session.Attach.{same_cookie, unlink_same, move_from}

and_parts : (a b c : Bool) → (a && b && c) ≡ true → (a ≡ true) × (b ≡ true) × (c ≡ true)
and_parts true true true e = (refl, refl, refl)
and_parts true true false e = absurd (ground arith)
and_parts true false c e = absurd (ground arith)
and_parts false b c e = absurd (ground arith)

-- StringIsEqual compares two texts that are not nullptr.
abbrev pub IsStringEqual : (Text → Text → Bool) → Type 0
IsStringEqual eq = (s t : Bytes) → (eq (some s) (some t) ≡ true) ↔ (s ≡ t)

abbrev IsText : Text → Type 0
IsText s = s ≢ none

-- Neither the domain nor the path nor the name of the cookie is nullptr.
abbrev pub IsNamed : Cookie → Type 0
IsNamed c = IsText c.domain × IsText c.path × IsText c.name

equal_texts :
    (eq : Text → Text → Bool) (laws : IsStringEqual eq) (s t : Text)
    → IsText s
    → IsText t
    → (eq s t ≡ true) ↔ (s ≡ t)
equal_texts eq laws none t a b = absurd (a refl)
equal_texts eq laws (some s) none a b = absurd (b refl)
equal_texts eq laws (some s) (some t) a b =
    (λ e. ap some ((laws s t).0 e), λ e. (laws s t).1 (cc e))

module _ (eq : Text → Text → Bool) where
  -- no two cookies of a jar have the same domain, path and name
  abbrev pub Distinct : List Cookie → Type 0
  Distinct [] = Unit
  Distinct (c ∷ cs) = All (λ d. same_cookie eq d c ≡ false) cs × Distinct cs

  pub has_same : Cookie → List Cookie → Bool
  has_same i [] = false
  has_same i (c ∷ cs) = same_cookie eq i c || has_same i cs

  -- The cookies of a jar that are not in the other.
  pub kept : List Cookie → List Cookie → List Cookie
  unfolding has_same
  kept src [] = []
  kept src (i ∷ jar) = let rest = kept src jar in if has_same i src then rest else i ∷ rest

module _ (eq : Text → Text → Bool) (laws : IsStringEqual eq) where
  same_eq :
      (i c : Cookie)
      → IsNamed i
      → IsNamed c
      → same_cookie eq i c ≡ true
      → (i.domain ≡ c.domain) × (i.path ≡ c.path) × (i.name ≡ c.name)
  unfolding same_cookie
  same_eq i c (a, b, g) (a', b', g') e =
      let (d, p, n) = and_parts (eq i.domain c.domain) (eq i.path c.path) (eq i.name c.name) e in
      (
        (equal_texts eq laws i.domain c.domain a a').0 d,
        (equal_texts eq laws i.path c.path b b').0 p,
        (equal_texts eq laws i.name c.name g g').0 n,
      )

  eq_same :
      (i c : Cookie)
      → IsNamed i
      → IsNamed c
      → i.domain ≡ c.domain
      → i.path ≡ c.path
      → i.name ≡ c.name
      → same_cookie eq i c ≡ true
  unfolding same_cookie
  eq_same i c (a, b, g) (a', b', g') d p n =
      rw
        (
          (equal_texts eq laws i.domain c.domain a a').1 d,
          (equal_texts eq laws i.path c.path b b').1 p,
          (equal_texts eq laws i.name c.name g g').1 n,
        )
        refl

  same_sym :
      (i c : Cookie)
      → IsNamed i
      → IsNamed c
      → same_cookie eq i c ≡ false
      → same_cookie eq c i ≡ false
  same_sym i c a b e = elim (Bool-cases (same_cookie eq c i)) [
    | inl same ↦
        let (d, p, n) = same_eq c i b a same in
        absurd (cc (eq_same i c a b (sym d) (sym p) (sym n), e))
    | inr other ↦ other
  ]

  same_trans :
      (d i c : Cookie)
      → IsNamed d
      → IsNamed i
      → IsNamed c
      → same_cookie eq i c ≡ true
      → same_cookie eq d i ≡ false
      → same_cookie eq d c ≡ false
  same_trans d i c nd ni nc e f = elim (Bool-cases (same_cookie eq d c)) [
    | inl same ↦
        let (dd, dp, dn) = same_eq d c nd nc same in
        let (id, ip, in_name) = same_eq i c ni nc e in
        absurd (cc (eq_same d i nd ni (dd ∙ sym id) (dp ∙ sym ip) (dn ∙ sym in_name), f))
    | inr other ↦ other
  ]

  kept-All :
      (src jar : List Cookie) → All (λ i. has_same eq i src ≡ false) jar → kept eq src jar ≡ jar
  unfolding kept
  kept-All src [] a = refl
  kept-All src (i ∷ jar) (p, a) = rw (p, kept-All src jar a) refl

  kept_nil : (jar : List Cookie) → kept eq [] jar ≡ jar
  unfolding kept has_same
  kept_nil [] = refl
  kept_nil (i ∷ jar) = ap (◌∷◌ i) (kept_nil jar)

  -- with one cookie, `unlink_same` takes out all that are the same, since there is one at most
  unlink_same-kept :
      (c : Cookie) (jar : List Cookie)
      → IsNamed c
      → All IsNamed jar
      → Distinct eq jar
      → unlink_same eq c jar ≡ kept eq (c ∷ []) jar
  unfolding unlink_same kept has_same
  unlink_same-kept c [] nc a d = refl
  unlink_same-kept c (i ∷ jar) nc (ni, a) (others, d) = elim (Bool-cases (same_cookie eq i c)) [
    | inl same ↦ rw same (sym (kept-All (c ∷ []) jar (go same jar a others)))
    | inr other ↦ rw other (ap (◌∷◌ i) (unlink_same-kept c jar nc a d))
  ]
    where
      go :
          same_cookie eq i c ≡ true
          → (js : List Cookie) → All IsNamed js
          → All (λ x. same_cookie eq x i ≡ false) js
          → All (λ x. has_same eq x (c ∷ []) ≡ false) js
      go same [] b a = tt
      go same (x ∷ js) (nx, b) (p, a) =
          (rw (has_same, same_trans x i c nx ni nc same p) refl, go same js b a)

  kept-kept :
      (c : Cookie) (cs jar : List Cookie) → kept eq cs (kept eq (c ∷ []) jar) ≡ kept eq (c ∷ cs) jar
  unfolding kept has_same
  kept-kept c cs [] = refl
  kept-kept c cs (i ∷ jar) = elim (Bool-cases (same_cookie eq i c)) [
    | inl same ↦ rw same (kept-kept c cs jar)
    | inr other ↦ rw (other, kept-kept c cs jar) refl
  ]

  kept-append :
      (cs jar : List Cookie) (c : Cookie)
      → has_same eq c cs ≡ false
      → kept eq cs (jar ++ c ∷ []) ≡ kept eq cs jar ++ c ∷ []
  unfolding kept
  kept-append cs [] c e = rw e refl
  kept-append cs (i ∷ jar) c e = elim (Bool-cases (has_same eq i cs)) [
    | inl same ↦ rw same (kept-append cs jar c e)
    | inr other ↦ rw other (ap (◌∷◌ i) (kept-append cs jar c e))
  ]

  has_same_none :
      (c : Cookie) (cs : List Cookie)
      → IsNamed c
      → All IsNamed cs
      → All (λ d. same_cookie eq d c ≡ false) cs
      → has_same eq c cs ≡ false
  unfolding has_same
  has_same_none c [] nc b a = refl
  has_same_none c (d ∷ cs) nc (nd, b) (p, a) =
      rw (same_sym d c nd nc p, has_same_none c cs nc b a) refl

  kept_others :
      (c k : Cookie) (jar : List Cookie)
      → All (λ d. same_cookie eq d k ≡ false) jar
      → same_cookie eq c k ≡ false
      → All (λ d. same_cookie eq d k ≡ false) (kept eq (c ∷ []) jar ++ c ∷ [])
  unfolding kept has_same
  kept_others c k [] a e = (e, tt)
  kept_others c k (i ∷ jar) (p, a) e = elim (Bool-cases (same_cookie eq i c)) [
    | inl same ↦ rw same (kept_others c k jar a e)
    | inr other ↦ rw other (p, kept_others c k jar a e)
  ]

  kept-Distinct :
      (c : Cookie) (jar : List Cookie)
      → IsNamed c
      → All IsNamed jar
      → Distinct eq jar
      → Distinct eq (kept eq (c ∷ []) jar ++ c ∷ [])
  unfolding kept has_same
  kept-Distinct c [] nc b d = (tt, tt)
  kept-Distinct c (i ∷ jar) nc (ni, b) (others, d) = elim (Bool-cases (same_cookie eq i c)) [
    | inl same ↦ rw same (kept-Distinct c jar nc b d)
    | inr other ↦
        rw other (kept_others c i jar others (same_sym i c ni nc other), kept-Distinct c jar nc b d)
  ]

  kept-IsNamed :
      (c : Cookie) (jar : List Cookie)
      → IsNamed c
      → All IsNamed jar
      → All IsNamed (kept eq (c ∷ []) jar ++ c ∷ [])
  unfolding kept has_same
  kept-IsNamed c [] nc b = (nc, tt)
  kept-IsNamed c (i ∷ jar) nc (ni, b) = elim (Bool-cases (same_cookie eq i c)) [
    | inl same ↦ rw same (kept-IsNamed c jar nc b)
    | inr other ↦ rw other (ni, kept-IsNamed c jar nc b)
  ]

  -- MoveFrom of a jar to another: where no two cookies of a jar have the same domain, path and name, the
  -- result is those of the destination that the source has not, in their order, and behind them the
  -- cookies of the source, in theirs; and again no two are the same. No domain,
  -- path or name is nullptr, and StringIsEqual compares texts that are not.
  pub move_from-kept :
      (src jar : List Cookie)
      → All IsNamed src
      → All IsNamed jar
      → Distinct eq src
      → Distinct eq jar
      → (move_from eq src jar ≡ kept eq src jar ++ src) × Distinct eq (move_from eq src jar)
  unfolding move_from
  move_from-kept [] jar b b' d d' = (sym (append-nil (kept eq [] jar) ∙ kept_nil jar), d')
  move_from-kept (c ∷ src) jar (nc, b) b' (others, d) d' =
      let one = unlink_same-kept c jar nc b' d' in
      let (is, distinct) =
        move_from-kept src (kept eq (c ∷ []) jar ++ c ∷ []) b (kept-IsNamed c jar nc b') d
          (kept-Distinct c jar nc b' d') in
      rw one (
        is
            ∙ ap (λ x. x ++ src)
                (kept-append src (kept eq (c ∷ []) jar) c (has_same_none c src nc b others)
                  ∙ ap (λ x. x ++ c ∷ []) (kept-kept c src jar))
            ∙ append_assoc (kept eq (c ∷ src) jar) (c ∷ []) src,
        distinct,
      )
