-- ===== src/Uri/Path.antt =====
-- NormalizeUriPath() of src/uri/PNormalize.cxx as a whole.
use cm4all_beng_proxy.Common.{
  suc, ◌≡◌, refl, ap, ◌∙◌, false, Option, none, some, inl, inr, [], Bytes, length, arith,
  Bool-cases,
}
use cm4all_beng_proxy.Uri.{
  StringCompare, IsStringCompare, cut_slash, cut_dot, cut_all, ends_in_dot, is_dot, found, trim,
  trim_all, squeeze, normalize_rest, normalize_uri_path, skip_dots,
}
use cm4all_beng_proxy.Uri.Normal.{
  cut_slash-shorter, cut_dot-shorter, cut_all-total, cut_dot-keeps, IsNormal, trim-IsNormal,
}
use cm4all_beng_proxy.Uri.Segments.{
  names, file_name, is_rooted, Same, Kept, Same-Kept, Kept-trans, Same-refl, Same-trans,
  cut_slash-Same, cut_dot-Same, dot-Kept, skip_dots-names, trim-Kept,
}

-- What is said of a result: it is normal, and keeps the names, the last name, and the root of what is
-- left of `uri` behind any "./" at its front.
abbrev pub Normalized : Bytes → Option Bytes → Type 0
Normalized uri o =
    (out : Bytes) × (o ≡ some out)
    × IsNormal out
    × (names out ≡ names uri)
    × (file_name out ≡ file_name uri)
    × (is_rooted out ≡ is_rooted (skip_dots uri))

abbrev Rest : Bytes → Option Bytes → Type 0
Rest uri o = (out : Bytes) × (o ≡ some out) × IsNormal out × Kept out uri

squeeze-Rest : (uri : Bytes) → Rest uri (squeeze (cut_all cut_slash (suc (length uri)) uri))
unfolding squeeze trim_all
squeeze-Rest uri =
    let (a, e, no_slash, same) =
      cut_all-total cut_slash (λ s. Same s uri) (λ s t h. omega (arith, cut_slash-shorter s t h))
        (λ s t h k. Same-trans t s uri (cut_slash-Same s t h) k) (suc (length uri)) uri
        (omega arith) (Same-refl uri) in
    let (b, e', no_dot, kept) =
      cut_all-total cut_dot (λ s. (cut_slash s ≡ none) × Same s uri)
        (λ s t h. omega (arith, cut_dot-shorter s t h))
        (λ s t h k. (cut_dot-keeps s t h k.0, Same-trans t s uri (cut_dot-Same s t h) k.1))
        (suc (length a)) a (omega arith) (no_slash, same) in
    (
      trim b,
      ap squeeze e ∙ ap trim_all e',
      trim-IsNormal b (kept.0, no_dot),
      Kept-trans (trim b) b uri (trim-Kept b) (Same-Kept b uri kept.1),
    )

found_none : (o : Option Bytes) → found o ≡ false → o ≡ none
unfolding found
found_none none h = refl
found_none (some s) h = absurd (ground arith)

empty-IsNormal : IsNormal []
unfolding cut_slash cut_dot ends_in_dot is_dot
empty-IsNormal = record { squeezed = (refl, refl); ends = refl; dotless = refl }

module _ (l : StringCompare) (lib : IsStringCompare l) where
  normalize_rest-Rest : (uri : Bytes) → Rest uri (normalize_rest l uri)
  unfolding normalize_rest
  normalize_rest-Rest uri =
      rw (lib.equals_dot uri, lib.ends_with_dot uri)
        (elim (Bool-cases (is_dot uri)) [
          | inl dot ↦ rw dot ([], refl, empty-IsNormal, dot-Kept uri dot)
          | inr no_dot ↦ rw no_dot (elim (Bool-cases (found (cut_slash uri))) [
            | inl on ↦ rw on (squeeze-Rest uri)
            | inr off ↦ rw off (elim (Bool-cases (found (cut_dot uri))) [
              | inl on' ↦ rw on' (squeeze-Rest uri)
              | inr off' ↦ rw off' (elim (Bool-cases (ends_in_dot uri)) [
                | inl ends ↦ rw ends (squeeze-Rest uri)
                | inr open_end ↦ rw open_end (
                  uri,
                  refl,
                  record {
                    squeezed = (found_none (cut_slash uri) off, found_none (cut_dot uri) off');
                    ends = open_end;
                    dotless = no_dot;
                  },
                  (refl, refl, refl),
                )
              ])
            ])
          ])
        ])

  -- If the string functions of libcommon compare as they say, `NormalizeUriPath` comes to an end, also
  -- in its loops. The path that it returns has no "//" and no "/./", does not end in "/." and is not ".".
  -- Its segments that are neither empty nor a dot are those of the given path, in their order; what is
  -- behind its last slash is the same, but that a dot there becomes empty; and it starts with a slash if
  -- what is left of the given path behind any "./" at its front does.
  pub normalize_uri_path-Normalized : (uri : Bytes) → Normalized uri (normalize_uri_path l uri)
  unfolding normalize_uri_path
  normalize_uri_path-Normalized uri =
      let (out, e, normal, (named, file, root)) = normalize_rest-Rest (skip_dots uri) in
      let (all, end) = skip_dots-names uri in (out, e, normal, named ∙ all, file ∙ end, root)
