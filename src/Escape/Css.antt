-- ===== src/Escape/Css.antt =====
-- src/escape/CSS.cxx: quotes and backslashes are escaped by a backslash.
pub mod Laws
use cm4all_beng_proxy.Common.{
  ℕ, zero, suc, ◌+◌, Bool, ◌||◌, Option, none, some, [], ◌∷◌, ◌++◌, Bytes, length, ◌==◌,
  if◌then◌else◌,
}
use cm4all_beng_proxy.Escape.{EscapeClass}
use cm4all_beng_proxy.Escape.Flat.{find_if}

abbrev pub backslash : ℕ
backslash = b'\\'

unfoldable pub css_unescape_find : Bytes → Option ℕ
unfolding find_if
css_unescape_find p = find_if (λ c. c == backslash) p

unfoldable pub need_simple_escape : ℕ → Bool
need_simple_escape ch = ch == backslash || ch == b'"' || ch == b'\''

push_before : ℕ → Option (Bytes × Bytes) → Option (Bytes × Bytes)
push_before c none = none
push_before c (some (before, after)) = some (c ∷ before, after)

-- memchr(): the text before the first backslash, and the text behind it.
split_backslash : Bytes → Option (Bytes × Bytes)
unfolding push_before
split_backslash [] = none
split_backslash (c ∷ p) =
    let rest = split_backslash p in if c == backslash then some ([], p) else push_before c rest

-- The byte behind a backslash: what is written, and what is left.
unescape_simple : Bytes → Bytes × Bytes
unescape_simple [] = (backslash ∷ [], [])
unescape_simple (c ∷ p) = if need_simple_escape c then (c ∷ [], p) else (backslash ∷ [], c ∷ p)

-- One round of the loop, with the text left at `p` and what has been written at `q`; `next` makes
-- the rounds to come. Behind the last backslash the rest is copied.
css_unescape_round : (Bytes → Bytes → Bytes) → Bytes → Bytes → Option (Bytes × Bytes) → Bytes
unfolding unescape_simple
css_unescape_round next p q none = q ++ p
css_unescape_round next p q (some (before, after)) =
    next (unescape_simple after).1 (q ++ (before ++ (unescape_simple after).0))

-- Each round takes a backslash at least, so the length of the text is enough fuel.
css_unescape_loop : ℕ → Bytes → Bytes → Bytes
unfolding split_backslash css_unescape_round
css_unescape_loop zero p q = q ++ p
css_unescape_loop (suc fuel) p q =
    css_unescape_round (css_unescape_loop fuel) p q (split_backslash p)

unfoldable pub css_unescape : Bytes → Bytes
unfolding css_unescape_loop
css_unescape p = css_unescape_loop (length p) p []

-- The loop of `css_escape_size`, which does not move `p`; `none` means that the fuel is used up.
unfoldable pub size_loop : ℕ → Bytes → ℕ → Option ℕ
size_loop fuel [] size = some size
size_loop zero (c ∷ p) size = none
size_loop (suc fuel) (c ∷ p) size =
    size_loop fuel (c ∷ p) (if need_simple_escape c then size + 2 else size + 1)

-- No fuel is enough for a text that is not empty.
unfoldable pub css_escape_size : Bytes → Option ℕ
unfolding size_loop
css_escape_size p = size_loop (suc (length p)) p 0

unfoldable pub css_escape_find : Bytes → Option ℕ
unfolding find_if
css_escape_find p = find_if need_simple_escape p

-- The default case is an assertion failure; it returns no text.
unfoldable pub css_escape_char : ℕ → Bytes
css_escape_char ch =
    if ch == b'\\'
    then b'\\' ∷ b'\\' ∷ []
    else if ch == b'"'
    then b'\\' ∷ b'"' ∷ []
    else if ch == b'\''
    then b'\\' ∷ b'\'' ∷ []
    else []

unfoldable pub css_escape : Bytes → Bytes
css_escape [] = []
css_escape (ch ∷ p) =
    let q = css_escape p in if need_simple_escape ch then backslash ∷ (ch ∷ q) else ch ∷ q

abbrev pub css_escape_class : EscapeClass
css_escape_class = record {
  unescape_find = css_unescape_find;
  unescape = css_unescape;
  escape_find = css_escape_find;
  escape_char = css_escape_char;
  escape_size = css_escape_size;
  escape = css_escape;
}
