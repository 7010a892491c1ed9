-- ===== src/Escape.antt =====
-- src/escape: escaping and unescaping of text. `struct escape_class` (Class.hxx) is a record of
-- functions (`escape_size` is `none` where it does not return), and its laws are what the callers rely on; CSS.cxx and HTML.cxx are two classes, and
-- Istream.cxx, Pool.cxx and Static.cxx use any class. A pointer into the text is its offset.
pub mod Flat
pub mod Css
pub mod Html
pub mod Users
pub mod Filter
use cm4all_beng_proxy.Common.{
  ℕ, zero, suc, ◌+◌, ◌≤◌, ◌<◌, ◌≡◌, ◌⊎◌, Option, none, some, [], ◌∷◌, ◌++◌, Bytes, length, take,
  drop,
}

pub record EscapeClass : Type 0 where
  pub unescape_find : Bytes → Option ℕ
  pub unescape : Bytes → Bytes
  pub escape_find : Bytes → Option ℕ
  pub escape_char : ℕ → Bytes
  pub escape_size : Bytes → Option ℕ
  pub escape : Bytes → Bytes

-- What `escape_find` says of the text: nothing must be escaped, or the byte at the offset is the
-- first that must be, and `escape_char` is its escape.
abbrev pub IsFound : EscapeClass → Bytes → Option ℕ → Type 0
IsFound cls s none = cls.escape s ≡ s
IsFound cls s (some k) =
    (ch : ℕ) × (rest : Bytes) × (drop k s ≡ ch ∷ rest)
    × (k < length s)
    × (cls.escape (take k s) ≡ take k s)
    × (cls.escape (ch ∷ []) ≡ cls.escape_char ch)
    × (0 < length (cls.escape_char ch))

pub record IsEscapeClass (cls : EscapeClass) : Type 0 where
  pub escape-append : (s t : Bytes) → cls.escape (s ++ t) ≡ cls.escape s ++ cls.escape t
  pub escape-nil : cls.escape [] ≡ []
  pub found : (s : Bytes) → IsFound cls s (cls.escape_find s)
  pub grows : (s : Bytes) → length s ≤ length (cls.escape s)
  pub shrinks : (s : Bytes) → length (cls.unescape s) ≤ length s
  pub unescape-escape : (s : Bytes) → cls.unescape (cls.escape s) ≡ s
  -- text without an escape is not changed
  pub unescape_find-none : (s : Bytes) → cls.unescape_find s ≡ none → cls.unescape s ≡ s

-- `escape_size` returns the length of the escaped text.
abbrev pub IsSized : EscapeClass → Type 0
IsSized cls = (s : Bytes) → cls.escape_size s ≡ some (length (cls.escape s))

-- What `escape` needs of a size: it is 0 and there is nothing to escape, or the text fits.
abbrev pub Suffices : EscapeClass → Bytes → ℕ → Type 0
Suffices cls s n = ((n ≡ 0) × (cls.escape s ≡ s)) ⊎ ((0 < n) × (length (cls.escape s) ≤ n))

-- `escape_size` returns such a size. This is what Class.hxx says, and also what a class gives that
-- is sized.
abbrev pub IsMeasured : EscapeClass → Type 0
IsMeasured cls = (s : Bytes) → (n : ℕ) × (cls.escape_size s ≡ some n) × Suffices cls s n
