-- ===== src/Uri/Segments.antt =====
-- What NormalizeUriPath() of src/uri/PNormalize.cxx keeps of a path: its segments.
use cm4all_beng_proxy.Common.{
  ℕ, ◌≡◌, refl, ap, ◌∙◌, Bool, true, false, ◌&&◌, not, Option, List, none, some, inl, inr, [], ◌∷◌,
  Bytes, ◌==◌, if◌then◌else◌, arith, Bool-cases,
}
use cm4all_beng_proxy.Uri.{cut_slash, cut_dot, ends_in_dot, drop_last, is_dot, trim, skip_dots}
use cm4all_beng_proxy.Uri.Normal.{cut-cases}

-- What stands in front of the first slash of a path, and behind each of its slashes.
unfoldable pub segments : Bytes → Bytes × List Bytes
segments [] = ([], [])
segments (c ∷ s) =
    let rest = segments s in if c == b'/' then ([], rest.0 ∷ rest.1) else (c ∷ rest.0, rest.1)

-- neither empty nor a dot
abbrev pub is_name : Bytes → Bool
is_name [] = false
is_name (c ∷ []) = not (c == b'.')
is_name (c ∷ d ∷ s) = true

abbrev pub keep : Bytes → List Bytes → List Bytes
keep b bs = if is_name b then b ∷ bs else bs

abbrev pub sift : List Bytes → List Bytes
sift [] = []
sift (b ∷ bs) = keep b (sift bs)

abbrev pub or_last : Bytes → Option Bytes → Bytes
or_last b none = if is_name b then b else []
or_last b (some l) = l

-- the last of the parts, where a dot counts as empty
abbrev pub last : List Bytes → Option Bytes
last [] = none
last (b ∷ bs) = some (or_last b (last bs))

-- The segments that are neither empty nor a dot; what is behind the last slash, but for a dot; and
-- whether the path starts with a slash.
abbrev pub names : Bytes → List Bytes
names s = let parts = segments s in sift (parts.0 ∷ parts.1)

abbrev pub file_name : Bytes → Option Bytes
file_name s = let parts = segments s in last (parts.0 ∷ parts.1)

abbrev pub is_rooted : Bytes → Bool
is_rooted [] = false
is_rooted (c ∷ s) = c == b'/'

abbrev pub Same : Bytes → Bytes → Type 0
Same t s =
    ((segments t).0 ≡ (segments s).0)
    × (sift (segments t).1 ≡ sift (segments s).1)
    × (last (segments t).1 ≡ last (segments s).1)
    × (is_rooted t ≡ is_rooted s)

Same-cons : (c : ℕ) (t s : Bytes) → Same t s → Same (c ∷ t) (c ∷ s)
unfolding segments
Same-cons c t s (first, rest, end, root) = elim (Bool-cases (c == b'/')) [
  | inl on ↦ rw (on, first, rest, end) (refl, refl, refl, refl)
  | inr off ↦ rw (off, first) (refl, rest, end, refl)
]

-- what is kept of a path
abbrev pub Kept : Bytes → Bytes → Type 0
Kept t s = (names t ≡ names s) × (file_name t ≡ file_name s) × (is_rooted t ≡ is_rooted s)

pub Same-Kept : (t s : Bytes) → Same t s → Kept t s
Same-Kept t s (first, rest, end, root) = (
  ap (λ b. keep b (sift (segments t).1)) first ∙ ap (keep (segments s).0) rest,
  ap (λ b. last (b ∷ (segments t).1)) first ∙ ap (λ o. some (or_last (segments s).0 o)) end,
  root,
)

pub Kept-trans : (t s u : Bytes) → Kept t s → Kept s u → Kept t u
Kept-trans t s u (a, b, c) (a', b', c') = (a ∙ a', b ∙ b', c ∙ c')

pub Same-refl : (s : Bytes) → Same s s
Same-refl s = (refl, refl, refl, refl)

pub Same-trans : (t s u : Bytes) → Same t s → Same s u → Same t u
Same-trans t s u (a, b, c, d) (a', b', c', d') = (a ∙ a', b ∙ b', c ∙ c', d ∙ d')

slashes : (c d : ℕ) (s : Bytes) → (c == b'/' && d == b'/') ≡ true → Same (c ∷ s) (c ∷ d ∷ s)
unfolding segments
slashes c d s e =
    let on : (c == b'/') ≡ true = ground arith in
    let on' : (d == b'/') ≡ true = ground arith in rw (on, on') (refl, refl, refl, refl)

pub cut_slash-Same : (s t : Bytes) → cut_slash s ≡ some t → Same t s
unfolding cut_slash
cut_slash-Same [] t e = absurd (ground arith)
cut_slash-Same (c ∷ []) t e = absurd (ground arith)
cut_slash-Same (c ∷ d ∷ s) t e = elim (cut-cases _ _ c s t e) [
  | inl (on, is) ↦ rw is (slashes c d s on)
  | inr (t', off, more, is) ↦ rw is (Same-cons c t' (d ∷ s) (cut_slash-Same (d ∷ s) t' more))
]

dotted :
    (c d e : ℕ) (s : Bytes)
    → (c == b'/' && d == b'.' && e == b'/') ≡ true
    → Same (c ∷ s) (c ∷ d ∷ e ∷ s)
unfolding segments
dotted c d e s h =
    let on : (c == b'/') ≡ true = ground arith in
    let off : (d == b'/') ≡ false = ground arith in
    let dot : (d == b'.') ≡ true = ground arith in
    let on' : (e == b'/') ≡ true = ground arith in rw (on, off, on', dot) (refl, refl, refl, refl)

pub cut_dot-Same : (s t : Bytes) → cut_dot s ≡ some t → Same t s
unfolding cut_dot
cut_dot-Same [] t e = absurd (ground arith)
cut_dot-Same (c ∷ []) t e = absurd (ground arith)
cut_dot-Same (c ∷ d ∷ []) t e = absurd (ground arith)
cut_dot-Same (c ∷ d ∷ x ∷ s) t e = elim (cut-cases _ _ c s t e) [
  | inl (on, is) ↦ rw is (dotted c d x s on)
  | inr (t', off, more, is) ↦ rw is (Same-cons c t' (d ∷ x ∷ s) (cut_dot-Same (d ∷ x ∷ s) t' more))
]

dropped-Same : (s : Bytes) → ends_in_dot s ≡ true → Same (drop_last s) s
unfolding ends_in_dot drop_last segments
dropped-Same [] h = Same-refl []
dropped-Same (c ∷ []) h = absurd (ground arith)
dropped-Same (c ∷ d ∷ []) h =
    let on : (c == b'/') ≡ true = ground arith in
    let off : (d == b'/') ≡ false = ground arith in
    let dot : (d == b'.') ≡ true = ground arith in rw (on, off, dot) (refl, refl, refl, refl)
dropped-Same (c ∷ d ∷ x ∷ s) h =
    Same-cons c (drop_last (d ∷ x ∷ s)) (d ∷ x ∷ s) (dropped-Same (d ∷ x ∷ s) h)

pub dot-Kept : (s : Bytes) → is_dot s ≡ true → Kept [] s
unfolding is_dot segments
dot-Kept [] h = (refl, refl, refl)
dot-Kept (c ∷ []) h =
    let off : (c == b'/') ≡ false = ground arith in
    let dot : (c == b'.') ≡ true = h in rw (off, dot) (refl, refl, refl)
dot-Kept (c ∷ d ∷ s) h = absurd (ground arith)

dot_slash :
    (c d : ℕ) (s : Bytes)
    → c ≡ b'.'
    → d ≡ b'/'
    → (names s ≡ names (c ∷ d ∷ s)) × (file_name s ≡ file_name (c ∷ d ∷ s))
unfolding segments
dot_slash c d s is is' = rw (is, is') (refl, refl)

pub skip_dots-names :
    (s : Bytes) → (names (skip_dots s) ≡ names s) × (file_name (skip_dots s) ≡ file_name s)
unfolding skip_dots segments
skip_dots-names [] = (refl, refl)
skip_dots-names (c ∷ []) = (refl, refl)
skip_dots-names (c ∷ d ∷ s) = elim (Bool-cases (c == b'.' && d == b'/')) [
  | inl both ↦
      let (n, f) = skip_dots-names s in
      let (n', f') = dot_slash c d s (ground arith) (ground arith) in rw both (n ∙ n', f ∙ f')
  | inr other ↦ rw other (refl, refl)
]

pub trim-Kept : (s : Bytes) → Kept (trim s) s
unfolding trim
trim-Kept s = go (ends_in_dot s) refl
  where
    undot : (s : Bytes) → Kept (if is_dot s then [] else s) s
    undot s = elim (Bool-cases (is_dot s)) [
      | inl on ↦ rw on (dot-Kept s on)
      | inr off ↦ rw off (refl, refl, refl)
    ]

    go :
        (b : Bool)
        → ends_in_dot s ≡ b
        → Kept
            (if is_dot (if b then drop_last s else s) then [] else (if b then drop_last s else s))
            s
    go true e =
        Kept-trans _ (drop_last s) s (undot (drop_last s))
          (Same-Kept (drop_last s) s (dropped-Same s e))
    go false e = undot s
