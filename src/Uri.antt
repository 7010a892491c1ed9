-- ===== src/Uri.antt =====
-- src/uri/PNormalize.cxx: a URI path without redundant slashes and dots. A string is the list of
-- its bytes before the null.
pub mod Normal
pub mod Segments
pub mod Path
pub mod Compare
pub mod Suffix
use cm4all_beng_proxy.Common.{
  codes, ◌≡◌, ℕ, zero, suc, Bool, true, false, ◌&&◌, Option, none, some, [], ◌∷◌, Bytes, length,
  ◌==◌, if◌then◌else◌,
}

unfoldable pub push : ℕ → Option Bytes → Option Bytes
push c none = none
push c (some s) = some (c ∷ s)

-- `strstr(dest, "//")` and the memmove() that removes the second slash; `none` where there is none
unfoldable pub cut_slash : Bytes → Option Bytes
unfolding push
cut_slash [] = none
cut_slash (c ∷ []) = none
cut_slash (c ∷ d ∷ s) =
    let rest = cut_slash (d ∷ s) in if c == b'/' && d == b'/' then some (c ∷ s) else push c rest

-- the same for "/./", of which the first slash stays
unfoldable pub cut_dot : Bytes → Option Bytes
unfolding push
cut_dot [] = none
cut_dot (c ∷ []) = none
cut_dot (c ∷ d ∷ []) = none
cut_dot (c ∷ d ∷ e ∷ s) =
    let rest = cut_dot (d ∷ e ∷ s) in
    if c == b'/' && d == b'.' && e == b'/' then some (c ∷ s) else push c rest

-- A while loop with one of these; `none` means that the fuel is used up.
unfoldable pub cut_on : (Bytes → Option Bytes) → Bytes → Option Bytes → Option Bytes
cut_on next s none = some s
cut_on next s (some s') = next s'

unfoldable pub cut_all : (Bytes → Option Bytes) → ℕ → Bytes → Option Bytes
unfolding cut_on
cut_all cut zero s = none
cut_all cut (suc fuel) s = cut_on (cut_all cut fuel) s (cut s)

unfoldable pub ends_in_dot : Bytes → Bool
ends_in_dot [] = false
ends_in_dot (c ∷ []) = false
ends_in_dot (c ∷ d ∷ []) = c == b'/' && d == b'.'
ends_in_dot (c ∷ d ∷ e ∷ s) = ends_in_dot (d ∷ e ∷ s)

unfoldable pub drop_last : Bytes → Bytes
drop_last [] = []
drop_last (c ∷ []) = []
drop_last (c ∷ d ∷ s) = c ∷ drop_last (d ∷ s)

-- `while (uri[0] == '.' && uri[1] == '/') uri += 2`
unfoldable pub skip_dots : Bytes → Bytes
skip_dots [] = []
skip_dots (c ∷ []) = c ∷ []
skip_dots (c ∷ d ∷ s) = let rest = skip_dots s in if c == b'.' && d == b'/' then rest else c ∷ d ∷ s

unfoldable pub is_dot : Bytes → Bool
is_dot [] = false
is_dot (c ∷ []) = c == b'.'
is_dot (c ∷ d ∷ s) = false

unfoldable pub found : Option Bytes → Bool
found none = false
found (some s) = true

-- behind the loops: the trailing "/." and a lone "."
unfoldable pub trim : Bytes → Bytes
unfolding ends_in_dot drop_last is_dot
trim dest =
    let dest' = if ends_in_dot dest then drop_last dest else dest in
    if is_dot dest' then [] else dest'

unfoldable pub trim_all : Option Bytes → Option Bytes
unfolding trim
trim_all none = none
trim_all (some dest) = some (trim dest)

unfoldable pub squeeze : Option Bytes → Option Bytes
unfolding cut_all cut_dot trim_all
squeeze none = none
squeeze (some dest) = trim_all (cut_all cut_dot (suc (length dest)) dest)

-- Of util/StringCompare.hxx in libcommon, and what is relied on: that they compare with a text.
pub record StringCompare : Type 0 where
  pub string_is_equal : Bytes → Bytes → Bool
  pub string_ends_with : Bytes → Bytes → Bool

pub record IsStringCompare (l : StringCompare) : Type 0 where
  pub equals_dot : (s : Bytes) → l.string_is_equal s (codes ".") ≡ is_dot s
  pub ends_with_dot : (s : Bytes) → l.string_ends_with s (codes "/.") ≡ ends_in_dot s

module _ (l : StringCompare) where
  -- NormalizeUriPath() on what is left of the leading "./"
  unfoldable pub normalize_rest : Bytes → Option Bytes
  unfolding cut_all cut_slash cut_dot squeeze found
  normalize_rest uri =
      let dest = squeeze (cut_all cut_slash (suc (length uri)) uri) in
      if l.string_is_equal uri (codes ".")
      then some []
      else if found (cut_slash uri)
      then dest
      else if found (cut_dot uri)
      then dest
      else if l.string_ends_with uri (codes "/.")
      then dest
      else some uri

  unfoldable pub normalize_uri_path : Bytes → Option Bytes
  unfolding skip_dots normalize_rest
  normalize_uri_path uri = normalize_rest (skip_dots uri)
