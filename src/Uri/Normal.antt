-- ===== src/Uri/Normal.antt =====
-- src/uri/PNormalize.cxx: what the returned path does not have.
use cm4all_beng_proxy.Common.{
  ℕ, zero, suc, ◌<◌, ◌≡◌, ◌⊎◌, refl, sym, ap, ◌∙◌, Bool, true, false, ◌&&◌, Option, none, some, inl,
  inr, [], ◌∷◌, Bytes, length, ◌==◌, ==_iff, if◌then◌else◌, arith, Bool-cases,
}
use cm4all_beng_proxy.Uri.{
  cut_on, push, cut_slash, cut_dot, cut_all, ends_in_dot, drop_last, is_dot, trim,
}

-- What one step of the search says: the text is cut here, or behind the first byte.
pub cut-cases :
    (b : Bool) (o : Option Bytes) (c : ℕ) (s t : Bytes)
    → (if b then some (c ∷ s) else push c o) ≡ some t
    → ((b ≡ true) × (t ≡ c ∷ s)) ⊎ ((t' : Bytes) × (b ≡ false) × (o ≡ some t') × (t ≡ c ∷ t'))
unfolding push
cut-cases true o c s t e = inl (refl, ground arith)
cut-cases false none c s t e = absurd (ground arith)
cut-cases false (some t') c s t e = inr (t', refl, refl, ground arith)

cut-none :
    (b : Bool) (o : Option Bytes) (c : ℕ) (s : Bytes)
    → (if b then some (c ∷ s) else push c o) ≡ none
    → (b ≡ false) × (o ≡ none)
unfolding push
cut-none true o c s e = absurd (ground arith)
cut-none false none c s e = (refl, refl)
cut-none false (some t) c s e = absurd (ground arith)

pub cut_slash-shorter : (s t : Bytes) → cut_slash s ≡ some t → suc (length t) ≡ length s
unfolding cut_slash
cut_slash-shorter [] t e = absurd (ground arith)
cut_slash-shorter (c ∷ []) t e = absurd (ground arith)
cut_slash-shorter (c ∷ d ∷ s) t e = elim (cut-cases _ _ c s t e) [
  | inl (on, is) ↦ rw is refl
  | inr (t', off, more, is) ↦ rw is (ap suc (cut_slash-shorter (d ∷ s) t' more))
]

pub cut_dot-shorter : (s t : Bytes) → cut_dot s ≡ some t → suc (suc (length t)) ≡ length s
unfolding cut_dot
cut_dot-shorter [] t e = absurd (ground arith)
cut_dot-shorter (c ∷ []) t e = absurd (ground arith)
cut_dot-shorter (c ∷ d ∷ []) t e = absurd (ground arith)
cut_dot-shorter (c ∷ d ∷ x ∷ s) t e = elim (cut-cases _ _ c s t e) [
  | inl (on, is) ↦ rw is refl
  | inr (t', off, more, is) ↦ rw is (ap suc (cut_dot-shorter (d ∷ x ∷ s) t' more))
]

-- A loop comes to an end, and what it keeps, its result has.
pub cut_all-total :
    (cut : Bytes → Option Bytes) (Keeps : Bytes → Type 0)
    → ((s t : Bytes) → cut s ≡ some t → length t < length s)
    → ((s t : Bytes) → cut s ≡ some t → Keeps s → Keeps t)
    → (fuel : ℕ) (s : Bytes) → length s < fuel
    → Keeps s
    → (t : Bytes) × (cut_all cut fuel s ≡ some t) × (cut t ≡ none) × Keeps t
unfolding cut_all
cut_all-total cut Keeps shorter keeps zero s lt k = absurd (omega arith)
cut_all-total cut Keeps shorter keeps (suc fuel) s lt k =
    go (cut s) refl (cut_all-total cut Keeps shorter keeps fuel)
  where
    go :
        (o : Option Bytes)
        → cut s ≡ o
        → ((s' : Bytes)
            → length s' < fuel
            → Keeps s'
            → (t : Bytes) × (cut_all cut fuel s' ≡ some t) × (cut t ≡ none) × Keeps t)
        → (t : Bytes) × (cut_on (cut_all cut fuel) s o ≡ some t) × (cut t ≡ none) × Keeps t
    go none e ih = (s, refl, e, k)
    go (some s') e ih = ih s' (omega (arith, shorter s s' e)) (keeps s s' e k)

cut_dot-first : (c : ℕ) (s t : Bytes) → cut_dot (c ∷ s) ≡ some t → (t' : Bytes) × (t ≡ c ∷ t')
unfolding cut_dot
cut_dot-first c [] t e = absurd (ground arith)
cut_dot-first c (d ∷ []) t e = absurd (ground arith)
cut_dot-first c (d ∷ x ∷ s) t e = elim (cut-cases _ _ c s t e) [
  | inl (on, is) ↦ (s, is)
  | inr (t', off, more, is) ↦ (t', is)
]

slash-tail :
    (c d : ℕ) (s : Bytes)
    → cut_slash (c ∷ d ∷ s) ≡ none
    → ((c == b'/' && d == b'/') ≡ false) × (cut_slash (d ∷ s) ≡ none)
unfolding cut_slash
slash-tail c d s k = cut-none _ _ c s k

slash_between :
    (c d : ℕ) (s : Bytes)
    → (c == b'/' && d == b'/') ≡ false
    → cut_slash (d ∷ s) ≡ none
    → cut_slash (c ∷ d ∷ s) ≡ none
unfolding cut_slash push
slash_between c d s off k = rw (off, k) refl

ends_same : (c d x : ℕ) → (c == b'/' && d == b'.' && x == b'/') ≡ true → x ≡ c
ends_same c d x on = ground (arith, ==_iff x b'/', ==_iff c b'/')

-- removing a dot and its slash joins no two slashes
pub cut_dot-keeps : (s t : Bytes) → cut_dot s ≡ some t → cut_slash s ≡ none → cut_slash t ≡ none
unfolding cut_dot
cut_dot-keeps [] t e k = absurd (ground arith)
cut_dot-keeps (c ∷ []) t e k = absurd (ground arith)
cut_dot-keeps (c ∷ d ∷ []) t e k = absurd (ground arith)
cut_dot-keeps (c ∷ d ∷ x ∷ s) t e k = elim (cut-cases _ _ c s t e) [
  | inl (on, is) ↦
      ap cut_slash is
      ∙ ap (λ y. cut_slash (y ∷ s)) (sym (ends_same c d x on))
      ∙ (slash-tail d x s (slash-tail c d (x ∷ s) k).1).1
  | inr (t', off, more, is) ↦
      let (t'', first) = cut_dot-first d (x ∷ s) t' more in
      let (apart, tail) = slash-tail c d (x ∷ s) k in
      ap cut_slash (is ∙ ap (◌∷◌ c) first)
      ∙ slash_between c d t'' apart
          (ap cut_slash (sym first) ∙ cut_dot-keeps (d ∷ x ∷ s) t' more tail)
]

-- A path without doubled slashes and without "/./".
abbrev pub IsSqueezed : Bytes → Type 0
IsSqueezed s = (cut_slash s ≡ none) × (cut_dot s ≡ none)

drop_last-slash : (s : Bytes) → cut_slash s ≡ none → cut_slash (drop_last s) ≡ none
unfolding cut_slash drop_last
drop_last-slash [] k = refl
drop_last-slash (c ∷ []) k = refl
drop_last-slash (c ∷ d ∷ []) k = refl
drop_last-slash (c ∷ d ∷ x ∷ s) k =
    let (apart, tail) = slash-tail c d (x ∷ s) k in
    slash_between c d (drop_last (x ∷ s)) apart (drop_last-slash (d ∷ x ∷ s) tail)

dot_between :
    (c d x : ℕ) (s : Bytes)
    → (c == b'/' && d == b'.' && x == b'/') ≡ false
    → cut_dot (d ∷ x ∷ s) ≡ none
    → cut_dot (c ∷ d ∷ x ∷ s) ≡ none
unfolding cut_dot push
dot_between c d x s off k = rw (off, k) refl

drop_last-dot : (s : Bytes) → cut_dot s ≡ none → cut_dot (drop_last s) ≡ none
unfolding cut_dot drop_last
drop_last-dot [] k = refl
drop_last-dot (c ∷ []) k = refl
drop_last-dot (c ∷ d ∷ []) k = refl
drop_last-dot (c ∷ d ∷ x ∷ []) k = refl
drop_last-dot (c ∷ d ∷ x ∷ y ∷ s) k =
    let (apart, tail) = cut-none _ _ c (y ∷ s) k in
    dot_between c d x (drop_last (y ∷ s)) apart (drop_last-dot (d ∷ x ∷ y ∷ s) tail)

ends_dropped : (s : Bytes) → ends_in_dot s ≡ true → ends_in_dot (drop_last s) ≡ false
unfolding ends_in_dot drop_last
ends_dropped [] h = refl
ends_dropped (c ∷ []) h = refl
ends_dropped (c ∷ d ∷ []) h = refl
ends_dropped (c ∷ d ∷ x ∷ []) h = ground (arith, ==_iff d b'/', ==_iff d b'.')
ends_dropped (c ∷ d ∷ x ∷ y ∷ s) h = ends_dropped (d ∷ x ∷ y ∷ s) h

-- What the returned path does not have: "//", "/./", a "/." at its end; and it is not ".".
pub record IsNormal (s : Bytes) : Type 0 where
  pub squeezed : IsSqueezed s
  pub ends : ends_in_dot s ≡ false
  pub dotless : is_dot s ≡ false

empty-IsNormal : IsNormal []
unfolding cut_slash cut_dot ends_in_dot is_dot
empty-IsNormal = record { squeezed = (refl, refl); ends = refl; dotless = refl }

undotted-IsNormal :
    (s : Bytes) → IsSqueezed s → ends_in_dot s ≡ false → IsNormal (if is_dot s then [] else s)
undotted-IsNormal s q e = elim (Bool-cases (is_dot s)) [
  | inl on ↦ rw on empty-IsNormal
  | inr off ↦ rw off (record { squeezed = q; ends = e; dotless = off })
]

pub trim-IsNormal : (s : Bytes) → IsSqueezed s → IsNormal (trim s)
unfolding trim
trim-IsNormal s q = go (ends_in_dot s) refl
  where
    go :
        (b : Bool)
        → ends_in_dot s ≡ b
        → IsNormal
            (if is_dot (if b then drop_last s else s) then [] else (if b then drop_last s else s))
    go true e =
        undotted-IsNormal (drop_last s) (drop_last-slash s q.0, drop_last-dot s q.1)
          (ends_dropped s e)
    go false e = undotted-IsNormal s q e
