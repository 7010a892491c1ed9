-- ===== src/Escape/Css/Laws.antt =====
-- src/escape/CSS.cxx: the CSS functions as an escape class.
use cm4all_beng_proxy.Common.{
  ℕ, zero, suc, ◌+◌, ◌≤◌, ◌<◌, ◌≡◌, refl, ap, ◌∙◌, true, false, ◌&&◌, Option, none, some, inl, inr,
  [], ◌∷◌, ◌++◌, Bytes, length, ◌==◌, ==_iff, if◌then◌else◌, arith, Bool-cases, append_assoc,
}
use cm4all_beng_proxy.Escape.{IsEscapeClass}
use cm4all_beng_proxy.Escape.Flat.{
  find_if, mark, flat, IsFlat, escape-append, escape-nil, escape_find-IsFound, escape_grows,
}
use cm4all_beng_proxy.Escape.Css.{
  backslash, css_unescape_find, need_simple_escape, push_before, split_backslash, unescape_simple,
  css_unescape_round, css_unescape_loop, css_unescape, size_loop, css_escape_find, css_escape_char,
  css_escape, css_escape_class,
}

-- `css_unescape` without a loop: a backslash is dropped before a byte that it escapes.
plain : Bytes → Bytes
plain [] = []
plain (c ∷ []) = c ∷ []
plain (c ∷ d ∷ p) =
    let short = plain p in
    let long = plain (d ∷ p) in
    if c == backslash && need_simple_escape d then d ∷ short else c ∷ long

plain_other : (c : ℕ) (p : Bytes) → (c == backslash) ≡ false → plain (c ∷ p) ≡ c ∷ plain p
unfolding plain
plain_other c [] e = refl
plain_other c (d ∷ p) e = rw e

plain-backslash :
    (p : Bytes) → plain (backslash ∷ p) ≡ (unescape_simple p).0 ++ plain (unescape_simple p).1
unfolding plain unescape_simple
plain-backslash [] = refl
plain-backslash (d ∷ p) = ground arith

Splits : Bytes → Option (Bytes × Bytes) → Type 0
Splits p none = plain p ≡ p
Splits p (some (before, after)) =
    (plain p ≡ before ++ plain (backslash ∷ after)) × (length after < length p)

push_before-Splits :
    (c : ℕ) (p : Bytes) (o : Option (Bytes × Bytes))
    → (c == backslash) ≡ false
    → Splits p o
    → Splits (c ∷ p) (push_before c o)
unfolding Splits push_before
push_before-Splits c p none e h = plain_other c p e ∙ ap (◌∷◌ c) h
push_before-Splits c p (some (before, after)) e (h, lt) =
    (plain_other c p e ∙ ap (◌∷◌ c) h, omega arith)

split_backslash-Splits : (p : Bytes) → Splits p (split_backslash p)
unfolding split_backslash
split_backslash-Splits [] = unfold plain Splits in refl
split_backslash-Splits (c ∷ p) = elim (Bool-cases (c == backslash)) [
  | inl e ↦
      let is : c ≡ backslash = (==_iff c backslash).0 e in
      unfold Splits in rw (e, is) (refl, omega arith)
  | inr e ↦ rw e (push_before-Splits c p (split_backslash p) e (split_backslash-Splits p))
]

length-unescape_simple : (p : Bytes) → length (unescape_simple p).1 ≤ length p
unfolding unescape_simple
length-unescape_simple [] = omega arith
length-unescape_simple (c ∷ p) = ground arith

css_unescape_round-plain :
    (next : Bytes → Bytes → Bytes) (p q : Bytes) (o : Option (Bytes × Bytes))
    → Splits p o
    → ((p' q' : Bytes) → length p' < length p → next p' q' ≡ q' ++ plain p')
    → css_unescape_round next p q o ≡ q ++ plain p
unfolding css_unescape_round Splits
css_unescape_round-plain next p q none h ih = rw h
css_unescape_round-plain next p q (some (before, after)) (h, lt) ih =
    let lt' : length (unescape_simple after).1 < length p =
      omega (arith, length-unescape_simple after) in
    rw (ih _ _ lt', h, plain-backslash) (simp append_assoc)

-- With fuel for each byte the loop writes the whole text.
css_unescape_loop-plain :
    (fuel : ℕ) (p q : Bytes) → length p ≤ fuel → css_unescape_loop fuel p q ≡ q ++ plain p
unfolding css_unescape_loop
css_unescape_loop-plain zero [] q h = unfold plain in refl
css_unescape_loop-plain zero (c ∷ p) q h = absurd (omega arith)
css_unescape_loop-plain (suc fuel) p q h =
    css_unescape_round-plain (css_unescape_loop fuel) p q (split_backslash p)
      (split_backslash-Splits p) (λ p' q' lt. css_unescape_loop-plain fuel p' q' (omega arith))

-- The length bound and the round trip, on `plain`.
length-plain-le : (p : Bytes) → length (plain p) ≤ length p
unfolding plain
length-plain-le [] = omega arith
length-plain-le (c ∷ []) = omega arith
length-plain-le (c ∷ d ∷ p) = ground (arith, length-plain-le p, length-plain-le (d ∷ p))

plain_escaped :
    (c : ℕ) (q : Bytes) → need_simple_escape c ≡ true → plain (backslash ∷ c ∷ q) ≡ c ∷ plain q
unfolding plain
plain_escaped c q e = rw e

need-ne-backslash : (c : ℕ) → need_simple_escape c ≡ false → (c == backslash) ≡ false
unfolding need_simple_escape
need-ne-backslash c e = ground arith

plain-css_escape : (s : Bytes) → plain (css_escape s) ≡ s
unfolding css_escape
plain-css_escape [] = unfold plain in refl
plain-css_escape (c ∷ s) = elim (Bool-cases (need_simple_escape c)) [
  | inl e ↦ rw e (plain_escaped c (css_escape s) e ∙ ap (◌∷◌ c) (plain-css_escape s))
  | inr e ↦
      rw e (plain_other c (css_escape s) (need-ne-backslash c e) ∙ ap (◌∷◌ c) (plain-css_escape s))
]

css_mark :
    (c : ℕ)
    → mark need_simple_escape css_escape_char c
      ≡ (if need_simple_escape c then backslash ∷ c ∷ [] else c ∷ [])
unfolding mark need_simple_escape css_escape_char
css_mark c = ground arith

css_escape-flat : (s : Bytes) → css_escape s ≡ flat need_simple_escape css_escape_char s
unfolding css_escape flat
css_escape-flat [] = refl
css_escape-flat (c ∷ s) = rw css_mark (ground (arith, css_escape-flat s))

css_escape_char_pos : (c : ℕ) → need_simple_escape c ≡ true → 0 < length (css_escape_char c)
unfolding need_simple_escape css_escape_char
css_escape_char_pos c h = ground arith

size_loop-stuck : (fuel c size : ℕ) (p : Bytes) → size_loop fuel (c ∷ p) size ≡ none
unfolding size_loop
size_loop-stuck zero c size p = refl
size_loop-stuck (suc fuel) c size p =
    size_loop-stuck fuel c (if need_simple_escape c then size + 2 else size + 1) p

css-IsFlat : IsFlat css_escape_class need_simple_escape css_escape_char
css-IsFlat = record {
  escape = css_escape-flat;
  find = λ s. unfold css_escape_find in refl;
  char = λ c h. refl;
  pos = css_escape_char_pos;
}

css_unescape-plain : (s : Bytes) → css_unescape s ≡ plain s
unfolding css_unescape
css_unescape-plain s = css_unescape_loop-plain (length s) s [] (omega arith)

plain-no_backslash : (s : Bytes) → find_if (λ c. c == backslash) s ≡ none → plain s ≡ s
unfolding find_if
plain-no_backslash [] h = unfold plain in refl
plain-no_backslash (c ∷ s) h = ground (arith, plain_other c s, plain-no_backslash s)

pub css-IsEscapeClass : IsEscapeClass css_escape_class
css-IsEscapeClass = record {
  escape-append = escape-append css_escape_class need_simple_escape css_escape_char css-IsFlat;
  escape-nil = escape-nil css_escape_class need_simple_escape css_escape_char css-IsFlat;
  found = escape_find-IsFound css_escape_class need_simple_escape css_escape_char css-IsFlat;
  grows = escape_grows css_escape_class need_simple_escape css_escape_char css-IsFlat;
  shrinks = λ s. rw css_unescape-plain (length-plain-le s);
  unescape-escape = λ s. css_unescape-plain (css_escape s) ∙ plain-css_escape s;
  unescape_find-none =
      λ s h. css_unescape-plain s ∙ plain-no_backslash s (unfold css_unescape_find in h);
}

-- The CSS class keeps the laws of an escape class that do not speak of `escape_size`: escaping is
-- undone by unescaping, it never shrinks and unescaping never grows a text, and the first byte to be
-- escaped is found with its escape. The loop of `css_escape_size` does not end on any text that is
-- not empty, whatever its fuel.
pub css_class_lem :
    IsEscapeClass css_escape_class × ((fuel c : ℕ) (p : Bytes) → size_loop fuel (c ∷ p) 0 ≡ none)
css_class_lem = (css-IsEscapeClass, λ fuel c p. size_loop-stuck fuel c 0 p)
