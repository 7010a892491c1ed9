-- ===== src/Escape/Html.antt =====
-- src/escape/HTML.cxx: the five predefined entities, and numeric entities when unescaping.
-- The functions of libcommon that the code calls are a parameter.
pub mod Shrink
pub mod RoundTrip
pub mod Laws
use text.Mathlib.Text.{◌==◌ as str_eq}
use cm4all_beng_proxy.Common.{
  ℕ, zero, suc, ◌+◌, ◌-◌, ◌*◌, ◌%◌, ◌^◌, ◌≤◌, ◌<◌, ◌≡◌, Bool, true, false, ◌||◌, Option, none, some,
  [], ◌∷◌, ◌++◌, Bytes, length, codes, Lacks, ltb, ◌==◌, if◌then◌else◌,
}
use cm4all_beng_proxy.Escape.{EscapeClass}
use cm4all_beng_proxy.Escape.Flat.{find_if}

-- util/StringSplit.hxx, util/CharUtil.hxx, util/HexParse.hxx and util/UTF8.hxx. The second part of
-- a split is `none` for nullptr, and a digit is `none` for a negative result.
pub record Libcommon : Type 0 where
  pub split : Bytes → ℕ → Bytes × Option Bytes
  pub is_digit_ascii : ℕ → Bool
  pub parse_hex_digit : ℕ → Option ℕ
  pub unicode_to_utf8 : ℕ → Bytes

-- Split() cuts at the first separator, and UnicodeToUTF8() writes at most four bytes for a code
-- point.
pub record IsLibcommon (l : Libcommon) : Type 0 where
  pub split_found : (ch : ℕ) (a b : Bytes) → Lacks ch a → l.split (a ++ ch ∷ b) ch ≡ (a, some b)
  pub split_missing : (ch : ℕ) (a : Bytes) → Lacks ch a → l.split a ch ≡ (a, none)
  pub utf8_short : (value : ℕ) → value ≤ 0x10ffff → length (l.unicode_to_utf8 value) ≤ 4

unfoldable pub html_unescape_find : Bytes → Option ℕ
unfolding find_if
html_unescape_find p = find_if (λ c. c == b'&') p

-- uint_least32_t
abbrev pub u32_mod : ℕ
u32_mod = 2 ^ 32

-- `entity == "…"sv`
unfoldable pub same : Bytes → Bytes → Bool
same [] [] = true
same [] (d ∷ t) = false
same (c ∷ s) [] = false
same (c ∷ s) (d ∷ t) = let rest = same s t in if c == d then rest else false

module _ (l : Libcommon) where
  -- `ParseDecimal` and `ParseHex`: the value so far, and what is not parsed.
  parse_decimal : ℕ → Bytes → ℕ × Bytes
  parse_decimal value [] = (value, [])
  parse_decimal value (ch ∷ s) =
      let rest = parse_decimal ((value * 10 + (ch - b'0')) % u32_mod) s in
      if l.is_digit_ascii ch then rest else (value, ch ∷ s)

  parse_hex : ℕ → Bytes → ℕ × Bytes
  parse_hex value [] = (value, [])
  parse_hex value (ch ∷ s) = elim (l.parse_hex_digit ch) [
    | none ↦ (value, ch ∷ s)
    | some d ↦ parse_hex ((value * 0x10 + d) % u32_mod) s
  ]

  parse_numeric_entity : Bytes → ℕ × Bytes
  parse_numeric_entity [] = (0, [])
  parse_numeric_entity (ch ∷ entity) =
      if ch == b'x' then parse_hex 0 entity else parse_decimal 0 (ch ∷ entity)

  is_nil : Bytes → Bool
  is_nil [] = true
  is_nil (c ∷ s) = false

  -- the text behind "#"
  numeric_text : Bytes → Option Bytes
  numeric_text [] = none
  numeric_text (ch ∷ entity) =
      let (value, unparsed) = parse_numeric_entity (ch ∷ entity) in
      if value == 0 || ltb 0x10ffff value
      then none
      else if is_nil unparsed
      then some (l.unicode_to_utf8 value)
      else none

  other_text : Bytes → Option Bytes
  other_text [] = none
  other_text (ch ∷ entity) = if ch == b'#' then numeric_text entity else none

  -- What an entity stands for; `none` where the code leaves the ampersand alone, also for "&;".
  entity_text : Bytes → Option Bytes
  entity_text entity =
      if same entity (codes "amp")
      then some (b'&' ∷ [])
      else if same entity (codes "quot")
      then some (b'"' ∷ [])
      else if same entity (codes "lt")
      then some (b'<' ∷ [])
      else if same entity (codes "gt")
      then some (b'>' ∷ [])
      else if same entity (codes "apos")
      then some (b'\'' ∷ [])
      else other_text entity

  -- Behind an ampersand: what is written, and the source of the next round.
  replace_by : Bytes → Bytes → Option Bytes → Bytes × Bytes
  replace_by src rest none = (b'&' ∷ [], src)
  replace_by src rest (some text) = (text, rest)

  replace_entity : Bytes → Bytes → Option Bytes → Bytes × Bytes
  replace_entity src entity none = (b'&' ∷ [], src)
  replace_entity src entity (some rest) = replace_by src rest (entity_text entity)

  after_ampersand : Bytes → Bytes × Bytes
  after_ampersand src = let (entity, rest) = l.split src b';' in replace_entity src entity rest

  -- One round of the loop, on the source split at its first ampersand; `q` has been written, and
  -- `next` makes the rounds to come.
  unescape_round : (Bytes → Bytes → Option Bytes) → Bytes → Bytes → Option Bytes → Option Bytes
  unescape_round next q before none = some (q ++ before)
  unescape_round next q before (some src) =
      let (text, rest) = after_ampersand src in next rest (q ++ (before ++ text))

  -- `none` means that the fuel is used up.
  pub unescape_loop : ℕ → Bytes → Bytes → Option Bytes
  unescape_loop zero src q = none
  unescape_loop (suc fuel) src q =
      let (before, rest) = l.split src b'&' in unescape_round (unescape_loop fuel) q before rest

  -- Each round takes an ampersand at least, but the last.
  pub html_unescape : Bytes → Option Bytes
  html_unescape src = unescape_loop (suc (length src)) src []

-- The five bytes that are escaped: those that the switches name.
unfoldable pub is_control : ℕ → Bool
is_control ch = ch == b'&' || ch == b'"' || ch == b'\'' || ch == b'<' || ch == b'>'

unfoldable pub html_escape_size : Bytes → ℕ
html_escape_size [] = 0
html_escape_size (ch ∷ p) =
    let size = html_escape_size p in
    if ch == b'&'
    then size + 5
    else if ch == b'"' || ch == b'\''
    then size + 6
    else if ch == b'<' || ch == b'>'
    then size + 4
    else size + 1

unfoldable pub html_escape_find : Bytes → Option ℕ
unfolding find_if is_control
html_escape_find p = find_if is_control p

-- The default case is an assertion failure; it returns no text.
unfoldable pub html_escape_char : ℕ → Bytes
html_escape_char ch =
    if ch == b'&'
    then codes "&amp;"
    else if ch == b'"'
    then codes "&quot;"
    else if ch == b'\''
    then codes "&apos;"
    else if ch == b'<'
    then codes "&lt;"
    else if ch == b'>'
    then codes "&gt;"
    else []

-- What one round of `html_escape` writes.
html_escape_byte : ℕ → Bytes
html_escape_byte ch =
    if ch == b'&'
    then codes "&amp;"
    else if ch == b'"'
    then codes "&quot;"
    else if ch == b'\''
    then codes "&apos;"
    else if ch == b'<'
    then codes "&lt;"
    else if ch == b'>'
    then codes "&gt;"
    else ch ∷ []

unfoldable pub html_escape : Bytes → Bytes
unfolding html_escape_byte
html_escape [] = []
html_escape (ch ∷ p) = html_escape_byte ch ++ html_escape p

abbrev pub text_or_nil : Option Bytes → Bytes
text_or_nil none = []
text_or_nil (some text) = text

-- No text stands for a loop of `html_unescape` that has used up its fuel.
abbrev pub html_escape_class : Libcommon → EscapeClass
html_escape_class l = record {
  unescape_find = html_unescape_find;
  unescape = λ src. text_or_nil (html_unescape l src);
  escape_find = html_escape_find;
  escape_char = html_escape_char;
  escape_size = λ p. some (html_escape_size p);
  escape = html_escape;
}
