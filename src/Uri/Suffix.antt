-- ===== src/Uri/Suffix.antt =====
-- UriFindUnescapedSuffix finds what the suffix stands for (uri/Compare.cxx).
use mathlib.Core.Option
use mathlib.Core.List.{reverse, reverse-append, reverse-reverse, reverse-cons}
use cm4all_beng_proxy.Common.{
  ℕ, ◌+◌, ◌*◌, ◌≡◌, refl, sym, ap, ◌∙◌, false, ◌↔◌, Option, none, some, List, [], ◌∷◌, ◌++◌, Bytes,
  map, ◌==◌, if◌then◌else◌, arith, append-nil, append_assoc, All, All-append, Bool-cases, inl, inr,
  ==_refl, ==_iff,
}
use cm4all_beng_proxy.Uri.Compare.{unescaped, compare_byte, suffix_loop, uri_find_unescaped_suffix}

-- A part of an escaped suffix: a byte that stands for itself, or two hexadecimal digits with their
-- values.
pub data Part : Type 0 where
  plain : ℕ → Part
  percent : ℕ → ℕ → ℕ → ℕ → Part

abbrev pub code_of : Part → Bytes
code_of (plain c) = c ∷ []
code_of (percent a b high low) = b'%' ∷ a ∷ b ∷ []

abbrev pub byte_of : Part → ℕ
byte_of (plain c) = c
byte_of (percent a b high low) = high * 16 + low

abbrev pub suffix_text : List Part → Bytes
suffix_text [] = []
suffix_text (p ∷ ps) = code_of p ++ suffix_text ps

abbrev backwards : List Part → Bytes
backwards [] = []
backwards (p ∷ ps) = reverse (code_of p) ++ backwards ps

backwards-append : (ps qs : List Part) → backwards (ps ++ qs) ≡ backwards ps ++ backwards qs
backwards-append [] qs = refl
backwards-append (p ∷ ps) qs =
    ap (◌++◌ (reverse (code_of p))) (backwards-append ps qs)
    ∙ sym (append_assoc (reverse (code_of p)) (backwards ps) (backwards qs))

reverse-suffix_text : (ps : List Part) → reverse (suffix_text ps) ≡ backwards (reverse ps)
reverse-suffix_text [] = refl
reverse-suffix_text (p ∷ ps) =
    reverse-append (code_of p) (suffix_text ps)
    ∙ ap (λ s. s ++ reverse (code_of p)) (reverse-suffix_text ps)
    ∙ ap (◌++◌ (backwards (reverse ps))) (sym (append-nil (reverse (code_of p))))
    ∙ sym (backwards-append (reverse ps) (p ∷ []))
    ∙ ap backwards (sym (reverse-cons p ps))

bytes-append : (ps qs : List Part) → map byte_of (ps ++ qs) ≡ map byte_of ps ++ map byte_of qs
bytes-append [] qs = refl
bytes-append (p ∷ ps) qs = ap (λ s. byte_of p ∷ s) (bytes-append ps qs)

reverse-bytes : (ps : List Part) → reverse (map byte_of ps) ≡ map byte_of (reverse ps)
reverse-bytes [] = refl
reverse-bytes (p ∷ ps) =
    reverse-cons (byte_of p) (map byte_of ps)
    ∙ ap (λ s. s ++ byte_of p ∷ []) (reverse-bytes ps)
    ∙ sym (bytes-append (reverse ps) (p ∷ []))
    ∙ ap (map byte_of) (sym (reverse-cons p ps))

-- The first text without the second at its front.
abbrev strip : Bytes → Bytes → Option Bytes
strip us [] = some us
strip [] (c ∷ s) = none
strip (u ∷ us) (c ∷ s) = let rest = strip us s in if u == c then rest else none

strip-append : (s r : Bytes) → strip (s ++ r) s ≡ some r
strip-append [] r = refl
strip-append (c ∷ s) r = rw (==_refl c) (strip-append s r)

append-strip : (us s r : Bytes) → strip us s ≡ some r → us ≡ s ++ r
append-strip us [] r e = ground arith
append-strip [] (c ∷ s) r e = absurd (ground arith)
append-strip (u ∷ us) (c ∷ s) r e = elim (Bool-cases (u == c)) [
  | inl same ↦
      let tail : strip us s ≡ some r = ground arith in
      rw ((==_iff u c).0 same) (ap (◌∷◌ c) (append-strip us s r tail))
  | inr other ↦ absurd (ground arith)
]

split_end :
    (uri front m : Bytes)
    → Option.map reverse (strip (reverse uri) (reverse m)) ≡ some front
    → uri ≡ front ++ m
split_end uri front m e = go (strip (reverse uri) (reverse m)) refl e
  where
    go :
        (o : Option Bytes)
        → strip (reverse uri) (reverse m) ≡ o
        → Option.map reverse o ≡ some front
        → uri ≡ front ++ m
    go none is e = absurd (ground arith)
    go (some r) is e =
        let at : reverse r ≡ front = ground arith in
        sym (reverse-reverse uri)
        ∙ ap reverse (append-strip (reverse uri) (reverse m) r is)
        ∙ reverse-append (reverse m) r
        ∙ ap (◌++◌ (reverse r)) (reverse-reverse m)
        ∙ ap (λ x. x ++ m) at

end_split :
    (uri front m : Bytes)
    → uri ≡ front ++ m
    → Option.map reverse (strip (reverse uri) (reverse m)) ≡ some front
end_split uri front m e =
    ap (λ u. Option.map reverse (strip u (reverse m))) (ap reverse e ∙ reverse-append front m)
    ∙ ap (Option.map reverse) (strip-append (reverse m) (reverse front))
    ∙ ap some (reverse-reverse front)

module _ (parse_hex_digit : ℕ → Option ℕ) where
  abbrev pub IsPart : Part → Type 0
  IsPart (plain c) = (c == b'%') ≡ false
  IsPart (percent a b high low) = (parse_hex_digit a ≡ some high) × (parse_hex_digit b ≡ some low)

  module _ (no_digit : parse_hex_digit b'%' ≡ none) where
    digit-ne-percent : (a h : ℕ) → parse_hex_digit a ≡ some h → (a == b'%') ≡ false
    digit-ne-percent a h e = elim (Bool-cases (a == b'%')) [
      | inl is ↦ absurd (digit a h ((==_iff a _).0 is) e)
      | inr other ↦ other
    ]
      where
        digit : (a h : ℕ) → a ≡ b'%' → parse_hex_digit a ≡ some h → ⊥
        digit a h is e = cc (ap parse_hex_digit is, e, no_digit)

    -- a byte that stands for itself is taken for itself
    plain_loop :
        (u c : ℕ) (us : Bytes) (ps : List Part)
        → (c == b'%') ≡ false
        → All IsPart ps
        → suffix_loop parse_hex_digit (u ∷ us) (c ∷ backwards ps)
          ≡ compare_byte parse_hex_digit u (some c) (suffix_loop parse_hex_digit us (backwards ps))
    unfolding suffix_loop
    plain_loop u c us [] e good = rw e refl
    plain_loop u c us (plain d ∷ []) e good = rw e refl
    plain_loop u c us (plain d ∷ plain x ∷ ps) e (f, (g, good)) = rw (e, g) refl
    plain_loop u c us (plain d ∷ percent a b h l ∷ ps) e (f, ((ha, hb), good)) =
        rw (e, digit-ne-percent b l hb) refl
    plain_loop u c us (percent a b h l ∷ ps) e ((ha, hb), good) =
        rw (e, digit-ne-percent a h ha) refl

    unescaped_lem :
        (a b h l : ℕ)
        → parse_hex_digit a ≡ some h
        → parse_hex_digit b ≡ some l
        → unescaped parse_hex_digit b a ≡ some (h * 16 + l)
    unfolding unescaped
    unescaped_lem a b h l ha hb = rw (unescaped, hb, ha) refl

    suffix_loop-strip :
        (us : Bytes) (ps : List Part)
        → All IsPart ps
        → suffix_loop parse_hex_digit us (backwards ps) ≡ strip us (map byte_of ps)
    unfolding suffix_loop compare_byte unescaped
    suffix_loop-strip us [] good = refl
    suffix_loop-strip [] (plain c ∷ ps) good = refl
    suffix_loop-strip [] (percent a b h l ∷ ps) good = refl
    suffix_loop-strip (u ∷ us) (plain c ∷ ps) (e, good) =
        plain_loop u c us ps e good ∙ rw (suffix_loop-strip us ps good) refl
    suffix_loop-strip (u ∷ us) (percent a b h l ∷ ps) ((ha, hb), good) =
        rw (digit-ne-percent b l hb, unescaped_lem a b h l ha hb, suffix_loop-strip us ps good) refl

    All-reverse : (ps : List Part) → All IsPart ps → All IsPart (reverse ps)
    All-reverse [] good = tt
    All-reverse (p ∷ ps) (one, good) =
        rw (reverse-cons p ps)
          (All-append IsPart (reverse ps) (p ∷ []) (All-reverse ps good) (one, tt))

    found_lem :
        (uri : Bytes) (ps : List Part)
        → All IsPart ps
        → uri_find_unescaped_suffix parse_hex_digit uri (suffix_text ps)
          ≡ Option.map reverse (strip (reverse uri) (reverse (map byte_of ps)))
    unfolding uri_find_unescaped_suffix
    found_lem uri ps good =
        ap (λ s. Option.map reverse (suffix_loop parse_hex_digit (reverse uri) s))
          (reverse-suffix_text ps)
        ∙ ap (Option.map reverse) (
            suffix_loop-strip (reverse uri) (reverse ps) (All-reverse ps good)
            ∙ ap (strip (reverse uri)) (sym (reverse-bytes ps)))

    -- For a suffix that is escaped well, UriFindUnescapedSuffix succeeds exactly where the URI ends in
    -- what the suffix stands for, and its result is the place behind the rest of the URI.
    -- ParseHexDigit does not take a percent sign for a digit.
    pub uri_find_unescaped_suffix_lem :
        (uri front : Bytes) (ps : List Part)
        → All IsPart ps
        → (uri_find_unescaped_suffix parse_hex_digit uri (suffix_text ps) ≡ some front)
          ↔ (uri ≡ front ++ map byte_of ps)
    uri_find_unescaped_suffix_lem uri front ps good = (
      λ e. split_end uri front (map byte_of ps) (sym (found_lem uri ps good) ∙ e),
      λ e. found_lem uri ps good ∙ end_split uri front (map byte_of ps) e,
    )
