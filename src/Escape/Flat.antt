-- ===== src/Escape/Flat.antt =====
-- The laws that every class shares whose escape is made byte by byte.
use cm4all_beng_proxy.Escape.{EscapeClass, IsFound}
use cm4all_beng_proxy.Common.{
  ℕ, suc, ◌+◌, ◌≤◌, ◌<◌, ◌≡◌, refl, ◌∙◌, sym, Bool, true, false, Option, none, some, inl, inr, [],
  ◌∷◌, ◌++◌, Bytes, length, take, drop, if◌then◌else◌, arith, Bool-cases, append_assoc, append-nil,
  length-append,
}

-- The offset of the first byte that passes the test.
unfoldable pub find_if : (ℕ → Bool) → Bytes → Option ℕ
find_if test [] = none
find_if test (c ∷ s) =
    let rest = find_if test s in
    if test c then some 0 else elim rest [ none ↦ none | some k ↦ some (k + 1) ]

module _ (special : ℕ → Bool) (text : ℕ → Bytes) where
  -- what is written for one byte
  unfoldable pub mark : ℕ → Bytes
  mark c = if special c then text c else c ∷ []

  unfoldable pub flat : Bytes → Bytes
  flat [] = []
  flat (c ∷ s) = mark c ++ flat s

  pub flat-append : (s t : Bytes) → flat (s ++ t) ≡ flat s ++ flat t
  unfolding flat
  flat-append [] t = refl
  flat-append (c ∷ s) t = simp (flat-append s t, append_assoc)

  pub find_if-none : (s : Bytes) → find_if special s ≡ none → flat s ≡ s
  unfolding find_if flat mark
  find_if-none [] h = refl
  find_if-none (c ∷ s) h = ground (arith, find_if-none s)

  abbrev pub Found : Bytes → ℕ → Type 0
  Found s k =
      (ch : ℕ) × (rest : Bytes) × (drop k s ≡ ch ∷ rest)
      × (k < length s)
      × (flat (take k s) ≡ take k s)
      × (special ch ≡ true)

  find_if-tail :
      (c : ℕ) (s : Bytes) (k : ℕ)
      → special c ≡ false
      → find_if special (c ∷ s) ≡ some k
      → (j : ℕ) × (k ≡ suc j) × (find_if special s ≡ some j)
  unfolding find_if
  find_if-tail c s k e h = go (find_if special s) (rw e at h)
    where
      go :
          (o : Option ℕ)
          → elim o as (λ _. Option ℕ) [ none ↦ none | some k ↦ some (k + 1) ] ≡ some k
          → (j : ℕ) × (k ≡ suc j) × (o ≡ some j)
      go none q = ground arith
      go (some j) q = (j, ground arith, refl)

  pub find_if-some : (s : Bytes) (k : ℕ) → find_if special s ≡ some k → Found s k
  unfolding flat mark
  find_if-some [] k h = unfold find_if in ground arith
  find_if-some (c ∷ s) k h = elim (Bool-cases (special c)) [
    | inl e ↦
        let z : k ≡ 0 = unfold find_if in ground arith in rw z (c, s, refl, omega arith, refl, e)
    | inr e ↦
        let (j, is, q) = find_if-tail c s k e h in
        let (ch, rest, at, lt, plain, sp) = find_if-some s j q in
        rw is (ch, rest, at, omega arith, rw (e, plain), sp)
  ]

  pub mark-longer :
      ((c : ℕ) → special c ≡ true → 0 < length (text c)) → (s : Bytes) → length s ≤ length (flat s)
  unfolding flat mark
  mark-longer pos [] = omega arith
  mark-longer pos (c ∷ s) =
      ground (arith, pos c, mark-longer pos s, length-append (mark c) (flat s))

-- A class whose escape is made that way.
pub record IsFlat (cls : EscapeClass) (special : ℕ → Bool) (text : ℕ → Bytes) : Type 0 where
  pub escape : (s : Bytes) → cls.escape s ≡ flat special text s
  pub find : (s : Bytes) → cls.escape_find s ≡ find_if special s
  pub char : (c : ℕ) → special c ≡ true → cls.escape_char c ≡ text c
  pub pos : (c : ℕ) → special c ≡ true → 0 < length (text c)

module _ (cls : EscapeClass) (special : ℕ → Bool) (text : ℕ → Bytes)
    (f : IsFlat cls special text) where
  flat_one : (ch : ℕ) → special ch ≡ true → flat special text (ch ∷ []) ≡ text ch
  unfolding flat mark
  flat_one ch e = rw e (append-nil (text ch))

  find_if-IsFound : (s : Bytes) (o : Option ℕ) → find_if special s ≡ o → IsFound cls s o
  find_if-IsFound s none q = f.escape s ∙ find_if-none special text s q
  find_if-IsFound s (some k) q =
      let (ch, rest, at, lt, same, sp) = find_if-some special text s k q in
      (
        ch,
        rest,
        at,
        lt,
        f.escape (take k s) ∙ same,
        f.escape (ch ∷ []) ∙ flat_one ch sp ∙ sym (f.char ch sp),
        rw (f.char ch sp) (f.pos ch sp),
      )

  pub escape_find-IsFound : (s : Bytes) → IsFound cls s (cls.escape_find s)
  escape_find-IsFound s = rw (f.find s) (find_if-IsFound s (find_if special s) refl)

  pub escape-append : (s t : Bytes) → cls.escape (s ++ t) ≡ cls.escape s ++ cls.escape t
  escape-append s t = rw (f.escape s, f.escape t, f.escape (s ++ t)) (flat-append special text s t)

  pub escape-nil : cls.escape [] ≡ []
  escape-nil = f.escape [] ∙ unfold flat in refl

  pub escape_grows : (s : Bytes) → length s ≤ length (cls.escape s)
  escape_grows s = rw (f.escape s) (mark-longer special text f.pos s)
