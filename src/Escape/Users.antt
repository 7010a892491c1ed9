-- ===== src/Escape/Users.antt =====
-- src/escape/Pool.cxx and Static.cxx: escaping into a new allocation or into a static buffer.
-- An allocation is the text that it holds.
use cm4all_beng_proxy.Common.{
  ℕ, ◌≤◌, ◌<◌, ◌≡◌, true, false, Option, none, some, refl, Bytes, length, arith, ◌==◌, ltb, leb,
  if◌then◌else◌, ◌>>=◌,
}
use cm4all_beng_proxy.Escape.{EscapeClass, IsEscapeClass, IsSized}

-- `sizeof(buffer)`
abbrev pub buffer_size : ℕ
buffer_size = 4096

-- `none` stands for the assertion on the size, or for `escape_size` that does not return.
unfoldable pub dup_sized : EscapeClass → Bytes → ℕ → Option Bytes
dup_sized cls p size =
    if size == 0
    then some p
    else if ltb size (length (cls.escape p))
    then none
    else some (cls.escape p)

unfoldable pub escape_dup : EscapeClass → Bytes → Option Bytes
unfolding dup_sized
escape_dup cls p = cls.escape_size p >>= dup_sized cls p

-- `none` stands for nullptr.
unfoldable pub unescape_static : EscapeClass → Bytes → Option Bytes
unescape_static cls p = if leb buffer_size (length p) then none else some (cls.unescape p)

-- `some none` stands for nullptr, and `none` for a text that is written past the end of the buffer,
-- or for `escape_size` that does not return.
unfoldable pub static_sized : EscapeClass → Bytes → ℕ → Option (Option Bytes)
static_sized cls p size =
    if leb buffer_size size
    then some none
    else if leb buffer_size (length (cls.escape p))
    then none
    else some (some (cls.escape p))

unfoldable pub escape_static : EscapeClass → Bytes → Option (Option Bytes)
unfolding static_sized
escape_static cls p = cls.escape_size p >>= static_sized cls p

-- For a class that keeps its laws and whose `escape_size` is the length of the escaped text, the
-- static buffer takes the escaped text exactly if it is shorter than the buffer, and nothing is
-- written past its end; unescaping that text into the buffer then gives the first text back.
pub escape_static_lem :
    (cls : EscapeClass)
    → IsEscapeClass cls
    → IsSized cls
    → (p : Bytes)
    → (length (cls.escape p) < buffer_size → escape_static cls p ≡ some (some (cls.escape p)))
      × (buffer_size ≤ length (cls.escape p) → escape_static cls p ≡ some none)
      × (length (cls.escape p) < buffer_size → unescape_static cls (cls.escape p) ≡ some p)
unfolding escape_static static_sized unescape_static
escape_static_lem cls laws sized p = (
  λ h.
      let fits : leb buffer_size (length (cls.escape p)) ≡ false = ground arith in
      rw (sized p, fits) refl,
  λ h.
      let large : leb buffer_size (length (cls.escape p)) ≡ true = ground arith in
      rw (sized p, large) refl,
  λ h.
      let fits : leb buffer_size (length (cls.escape p)) ≡ false = ground arith in
      rw (fits, laws.unescape-escape p) refl,
)
