-- ===== src/Tests/Uris.antt =====
-- NormalizeUriPath() of src/uri/PNormalize.cxx on concrete paths.
use cm4all_beng_proxy.Uri.Suffix.{
  Part, plain, percent, suffix_text, byte_of, uri_find_unescaped_suffix_lem,
}
use cm4all_beng_proxy.Uri.Compare.{suffix_loop, unescaped, compare_byte, uri_find_unescaped_suffix}
use cm4all_beng_proxy.Common.{
  ℕ, Option, none, ◌==◌, if◌then◌else◌, ◌↔◌, ◌++◌, map, List, [], ◌∷◌, ◌≡◌, refl, some, codes,
}
use cm4all_beng_proxy.Uri.{
  StringCompare, IsStringCompare, is_dot, ends_in_dot, normalize_uri_path, skip_dots,
}
use cm4all_beng_proxy.Uri
use cm4all_beng_proxy.Uri.Normal.{IsNormal}
use cm4all_beng_proxy.Uri.Path.{Normalized, normalize_uri_path-Normalized}

-- functions that agree with the real ones on "." and "/."
abbrev compare : StringCompare
compare = record { string_is_equal = λ s t. is_dot s; string_ends_with = λ s t. ends_in_dot s }

compare-IsStringCompare : IsStringCompare compare
compare-IsStringCompare = record { equals_dot = λ s. refl; ends_with_dot = λ s. refl }

normalized_text : normalize_uri_path compare (codes "././a//./b/.") ≡ some (codes "a/b/")
unfolding normalize_uri_path skip_dots Uri.normalize_rest Uri.squeeze Uri.cut_all Uri.cut_on
    Uri.cut_slash Uri.cut_dot Uri.push Uri.trim_all Uri.trim Uri.ends_in_dot Uri.drop_last
    Uri.is_dot Uri.found
normalized_text = refl

normalize_uri_path-Normalized_example :
    Normalized (codes "././a//./b/.") (normalize_uri_path compare (codes "././a//./b/."))
normalize_uri_path-Normalized_example =
    normalize_uri_path-Normalized compare compare-IsStringCompare (codes "././a//./b/.")

plain-IsNormal : IsNormal (skip_dots (codes "./a/.b"))
unfolding skip_dots Uri.cut_slash Uri.cut_dot Uri.push Uri.ends_in_dot Uri.is_dot
plain-IsNormal = record { squeezed = (refl, refl); ends = refl; dotless = refl }

-- a function that knows two digits
abbrev two_digits : ℕ → Option ℕ
two_digits c = if c == b'2' then some 2 else if c == b'f' then some 15 else none

abbrev slash_a : List Part
slash_a = percent b'2' b'f' 2 15 ∷ plain b'a' ∷ []

uri_find_unescaped_suffix_lem_example :
    (uri_find_unescaped_suffix two_digits (codes "x/a") (suffix_text slash_a) ≡ some (codes "x"))
    ↔ (codes "x/a" ≡ codes "x" ++ map byte_of slash_a)
uri_find_unescaped_suffix_lem_example =
    uri_find_unescaped_suffix_lem two_digits refl (codes "x/a") (codes "x") slash_a
      ((refl, refl), (refl, tt))

found_suffix : uri_find_unescaped_suffix two_digits (codes "x/a") (codes "%2fa") ≡ some (codes "x")
unfolding uri_find_unescaped_suffix suffix_loop unescaped compare_byte
found_suffix = refl
