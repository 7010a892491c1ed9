-- ===== src/Escape/Html/Laws.antt =====
-- src/escape/HTML.cxx: the HTML functions as an escape class.
use cm4all_beng_proxy.Common.{
  ℕ, suc, ◌<◌, ◌≡◌, refl, ap, true, none, some, [], ◌∷◌, Bytes, length, arith, Lacks, ◌==◌,
}
use cm4all_beng_proxy.Escape.{IsSized, IsEscapeClass}
use cm4all_beng_proxy.Escape.Flat.{
  find_if, mark, flat, IsFlat, escape-append, escape-nil, escape_find-IsFound, escape_grows,
}
use cm4all_beng_proxy.Escape.Html.{
  Libcommon, IsLibcommon, html_unescape_find, unescape_round, unescape_loop, html_unescape,
  is_control, html_escape_size, html_escape_find, html_escape_char, html_escape_byte, html_escape,
  text_or_nil, html_escape_class,
}
use cm4all_beng_proxy.Escape.Html.Shrink.{html_unescape-Bounded}
use cm4all_beng_proxy.Escape.Html.RoundTrip.{loop_escape}

html_escape_byte-mark : (c : ℕ) → html_escape_byte c ≡ mark is_control html_escape_char c
unfolding html_escape_byte mark is_control html_escape_char
html_escape_byte-mark c = ground arith

html_escape-flat : (s : Bytes) → html_escape s ≡ flat is_control html_escape_char s
unfolding html_escape flat
html_escape-flat [] = refl
html_escape-flat (c ∷ s) = rw (html_escape_byte-mark, html_escape-flat s)

html_escape_char_pos : (c : ℕ) → is_control c ≡ true → 0 < length (html_escape_char c)
unfolding is_control html_escape_char
html_escape_char_pos c h = ground arith

html_escape_size-length : (s : Bytes) → html_escape_size s ≡ length (html_escape s)
unfolding html_escape_size html_escape html_escape_byte
html_escape_size-length [] = refl
html_escape_size-length (c ∷ s) = ground (arith, html_escape_size-length s)

module _ (l : Libcommon) where
  html-IsFlat : IsFlat (html_escape_class l) is_control html_escape_char
  html-IsFlat = record {
    escape = html_escape-flat;
    find = λ s. unfold html_escape_find in refl;
    char = λ c h. refl;
    pos = html_escape_char_pos;
  }

  module _ (lib : IsLibcommon l) where
    -- `html_unescape` undoes `html_escape`, for every text.
    pub html_unescape-html_escape : (s : Bytes) → html_unescape l (html_escape s) ≡ some s
    unfolding html_unescape
    html_unescape-html_escape s = loop_escape l lib (suc (length (html_escape s))) s [] (
        omega (arith, escape_grows (html_escape_class l) is_control html_escape_char html-IsFlat s))

    html_unescape-no_ampersand : (s : Bytes) → Lacks b'&' s → html_unescape l s ≡ some s
    unfolding html_unescape unescape_loop unescape_round
    html_unescape-no_ampersand s lacks = rw (lib.split_missing b'&' s lacks)

    find_if-Lacks : (s : Bytes) → find_if (λ c. c == b'&') s ≡ none → Lacks b'&' s
    unfolding find_if
    find_if-Lacks [] h = tt
    find_if-Lacks (c ∷ s) h = ground (arith, find_if-Lacks s)

    pub html_laws : IsEscapeClass (html_escape_class l)
    html_laws = record {
      escape-append = escape-append (html_escape_class l) is_control html_escape_char html-IsFlat;
      escape-nil = escape-nil (html_escape_class l) is_control html_escape_char html-IsFlat;
      found = escape_find-IsFound (html_escape_class l) is_control html_escape_char html-IsFlat;
      grows = escape_grows (html_escape_class l) is_control html_escape_char html-IsFlat;
      shrinks = λ s. let (out, run, bound) = html_unescape-Bounded l lib s in rw run bound;
      unescape-escape = λ s. ap text_or_nil (html_unescape-html_escape s);
      unescape_find-none = λ s h.
          ap text_or_nil
            (html_unescape-no_ampersand s (find_if-Lacks s (unfold html_unescape_find in h)));
    }

    -- The HTML class keeps every law of an escape class, and `escape_size` returns the length of the
    -- escaped text, if libcommon's functions behave as documented.
    pub html-IsEscapeClass : IsEscapeClass (html_escape_class l) × IsSized (html_escape_class l)
    html-IsEscapeClass = (html_laws, λ s. ap some (html_escape_size-length s))
