-- ===== src/Tests/Escapes.antt =====
-- The escape classes of src/escape at concrete inputs, and a libcommon that behaves as documented.
use cm4all_beng_proxy.Common.{
  ℕ, ◌%◌, ◌≤◌, ◌<◌, ◌≡◌, refl, true, false, Option, none, some, [], ◌∷◌, ◌++◌, Bytes, length, codes,
  Lacks, ◌==◌, ==_refl, if◌then◌else◌, arith, leb, ◌&&◌,
}
use cm4all_beng_proxy.Escape.{IsEscapeClass, IsSized}
use cm4all_beng_proxy.Escape.Css.{css_escape_class}
use cm4all_beng_proxy.Escape.Css.Laws.{css-IsEscapeClass}
use cm4all_beng_proxy.Escape.Html.{Libcommon, IsLibcommon, html_unescape, html_escape_class}
use cm4all_beng_proxy.Escape.Html.Shrink.{html_unescape-Bounded}
use cm4all_beng_proxy.Escape.Html.Laws.{html-IsEscapeClass}
use cm4all_beng_proxy.Escape.Users.{buffer_size, escape_static, unescape_static, escape_static_lem}
use cm4all_beng_proxy.Escape.Filter.{Filter, took, on_data}
use cm4all_beng_proxy.Escape.Filter.Entity.{Forwarded}
use cm4all_beng_proxy.Escape.Filter.Whole.{eager, on_data-whole}
use cm4all_beng_proxy.Escape.Filter.Exact.{on_data-Forwarded}

cut : ℕ → Bytes → Bytes × Option Bytes
cut ch [] = ([], none)
cut ch (c ∷ s) = let (a, b) = cut ch s in if c == ch then ([], some s) else (c ∷ a, b)

cut_found : (ch : ℕ) (a b : Bytes) → Lacks ch a → cut ch (a ++ ch ∷ b) ≡ (a, some b)
unfolding cut
cut_found ch [] b h = rw (==_refl ch)
cut_found ch (c ∷ a) b (n, h) = ground (arith, cut_found ch a b h)

cut_missing : (ch : ℕ) (a : Bytes) → Lacks ch a → cut ch a ≡ (a, none)
unfolding cut
cut_missing ch [] h = refl
cut_missing ch (c ∷ a) (n, h) = ground (arith, cut_missing ch a h)

-- It writes every code point as one byte, and knows decimal digits.
abbrev lib : Libcommon
lib = record {
  split = λ s ch. cut ch s;
  is_digit_ascii = λ c. leb b'0' c && leb c b'9';
  parse_hex_digit = λ c. none;
  unicode_to_utf8 = λ v. v % 256 ∷ [];
}

lib-IsLibcommon : IsLibcommon lib
lib-IsLibcommon = record {
  split_found = cut_found;
  split_missing = cut_missing;
  utf8_short = λ v h. omega arith;
}

html-IsEscapeClass_example : IsEscapeClass (html_escape_class lib) × IsSized (html_escape_class lib)
html-IsEscapeClass_example = html-IsEscapeClass lib lib-IsLibcommon

html_unescape-Bounded_example :
    (out : Bytes) × (html_unescape lib (codes "a&#66;c&amp") ≡ some out)
    × (length out ≤ length (codes "a&#66;c&amp"))
html_unescape-Bounded_example = html_unescape-Bounded lib lib-IsLibcommon (codes "a&#66;c&amp")

escape_static_lem_example :
    (length ((html_escape_class lib).escape (codes "a<b")) < buffer_size
      → escape_static (html_escape_class lib) (codes "a<b")
        ≡ some (some ((html_escape_class lib).escape (codes "a<b"))))
    × (buffer_size ≤ length ((html_escape_class lib).escape (codes "a<b"))
        → escape_static (html_escape_class lib) (codes "a<b") ≡ some none)
    × (length ((html_escape_class lib).escape (codes "a<b")) < buffer_size
        → unescape_static (html_escape_class lib) ((html_escape_class lib).escape (codes "a<b"))
          ≡ some (codes "a<b"))
escape_static_lem_example =
    escape_static_lem (html_escape_class lib) (html-IsEscapeClass lib lib-IsLibcommon).0
      (html-IsEscapeClass lib lib-IsLibcommon).1 (codes "a<b")

-- A backslash is still to be sent, and the sink takes one byte at a time.
abbrev half_sent : Filter
half_sent = record {
  escaped = codes "\"";
  has_input = true;
  output = codes "x\\";
  destroyed = false;
  answers = took 1 ∷ took 1 ∷ took 1 ∷ took 0 ∷ [];
}

on_data-Forwarded_example :
    Forwarded css_escape_class 0
      (codes "x\\" ++ codes "\"")
      (codes "a'b")
      (on_data css_escape_class half_sent (codes "a'b"))
on_data-Forwarded_example =
    on_data-Forwarded css_escape_class css-IsEscapeClass half_sent (codes "a'b") refl refl

on_data-whole_example :
    on_data css_escape_class (eager (codes "x\\") (codes "\"")) (codes "a'b")
    ≡ (3, eager ((codes "x\\" ++ codes "\"") ++ css_escape_class.escape (codes "a'b")) [])
on_data-whole_example =
    on_data-whole css_escape_class css-IsEscapeClass (codes "x\\") (codes "\"") (codes "a'b")
