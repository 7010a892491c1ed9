-- ===== src/Uri/Compare.antt =====
-- uri/Compare.cxx: UriFindUnescapedSuffix. It goes backwards through both texts, which are lists of
-- their bytes from the end here; the result is the text in front of the suffix. ParseHexDigit of
-- libcommon is a parameter, where `none` stands for a negative number.
use mathlib.Core.Option
use mathlib.Core.List.{reverse}
use cm4all_beng_proxy.Common.{ℕ, ◌+◌, ◌*◌, Option, none, some, [], ◌∷◌, Bytes, ◌==◌, if◌then◌else◌}

module _ (parse_hex_digit : ℕ → Option ℕ) where
  -- `(digit2 << 4) | digit1`, a sum since a digit is less than 16
  unfoldable pub unescaped : ℕ → ℕ → Option ℕ
  unescaped suffix_ch previous = elim (parse_hex_digit suffix_ch) [
    | none ↦ none
    | some digit1 ↦ elim (parse_hex_digit previous) [
      | none ↦ none
      | some digit2 ↦ some (digit2 * 16 + digit1)
    ]
  ]

  -- the comparison of the byte, and the rounds behind it
  unfoldable pub compare_byte : ℕ → Option ℕ → Option Bytes → Option Bytes
  compare_byte u none rest = none
  compare_byte u (some ch) rest = if u == ch then rest else none

  unfoldable pub suffix_loop : Bytes → Bytes → Option Bytes
  unfolding unescaped compare_byte
  suffix_loop uri [] = some uri
  suffix_loop [] (c ∷ s) = none
  suffix_loop (u ∷ us) (c ∷ []) =
      if c == b'%' then none else compare_byte u (some c) (suffix_loop us [])
  suffix_loop (u ∷ us) (c ∷ d ∷ []) =
      let rest = suffix_loop us (d ∷ []) in if c == b'%' then none else compare_byte u (some c) rest
  suffix_loop (u ∷ us) (c ∷ d ∷ e ∷ s) =
      let literal = suffix_loop us (d ∷ e ∷ s) in
      let escaped = suffix_loop us s in
      if c == b'%'
      then none
      else if e == b'%'
      then compare_byte u (unescaped c d) escaped
      else compare_byte u (some c) literal

  unfoldable pub uri_find_unescaped_suffix : Bytes → Bytes → Option Bytes
  unfolding suffix_loop
  uri_find_unescaped_suffix uri suffix =
      Option.map reverse (suffix_loop (reverse uri) (reverse suffix))
