-- ===== src/Chunk/Size.antt =====
-- The line with a chunk's size: hexadecimal digits, an optional extension, and a newline.
use native.Mathlib.Nat.{add-zero}
use cm4all_beng_proxy.Common.{
  ℕ, suc, ◌+◌, ◌*◌, ◌%◌, ◌≡◌, refl, ap, ◌∙◌, [], ◌∷◌, ◌++◌, Bytes, length, Lacks, arith, Option,
  none, some, ◌==◌, if◌then◌else◌,
}
use cm4all_beng_proxy.Chunk.{
  State, Parser, round_in, round, digit_of, after_size_round, add_digit, size_mod, after_round,
  advance, parse_from,
}

-- The number that hexadecimal digits write, with no bound, after those that wrote `acc`.
unfoldable pub hex_value : ℕ → Bytes → Option ℕ
hex_value acc [] = some acc
hex_value acc (ch ∷ ds) = elim (digit_of ch) [
  | some d ↦ hex_value (acc * 0x10 + d) ds
  | none ↦ none
]

abbrev pub sized : State → ℕ → Parser
sized s v = record { state = s; remaining_chunk = v % size_mod }

add_digit_mod : (acc d : ℕ) → add_digit (acc % size_mod) d ≡ (acc * 0x10 + d) % size_mod
unfolding add_digit
add_digit_mod acc d = omega arith

-- A round that takes its byte.
pub advance_step :
    (p : Parser) (i ch : ℕ) (rest : Bytes) {p' : Parser}
    → round p ch ≡ advance p'
    → parse_from p i (ch ∷ rest) ≡ parse_from p' (i + 1) rest
unfolding parse_from
advance_step p i ch rest e = ap (after_round (λ q. parse_from q (i + 1) rest) p i _) e

size_digit :
    (acc d ch : ℕ)
    → digit_of ch ≡ some d
    → round (sized State.size acc) ch ≡ advance (sized State.size (acc * 0x10 + d))
unfolding round round_in
size_digit acc d ch e = ground (arith, add_digit_mod acc d)

idle_digit :
    (p : Parser) (d ch : ℕ)
    → p.state ≡ State.idle
    → digit_of ch ≡ some d
    → round p ch ≡ advance (sized State.size (0 * 0x10 + d))
unfolding round round_in add_digit
idle_digit p d ch idle e = ground arith

size_digits :
    (acc i : ℕ) (ds rest : Bytes) {v : ℕ}
    → hex_value acc ds ≡ some v
    → parse_from (sized State.size acc) i (ds ++ rest)
      ≡ parse_from (sized State.size v) (i + length ds) rest
unfolding hex_value
size_digits acc i [] rest e = ground (arith, add-zero i)
size_digits acc i (ch ∷ ds) rest {v} e =
    go (digit_of ch) refl e (λ d. size_digits (acc * 0x10 + d) (i + 1) ds rest)
  where
    go :
        (o : Option ℕ)
        → digit_of ch ≡ o
        → elim o [ some d ↦ hex_value (acc * 0x10 + d) ds | none ↦ none ] ≡ some v
        → ((d : ℕ)
            → hex_value (acc * 0x10 + d) ds ≡ some v
            → parse_from (sized State.size (acc * 0x10 + d)) (i + 1) (ds ++ rest)
              ≡ parse_from (sized State.size v) (i + 1 + length ds) rest)
        → parse_from (sized State.size acc) i (ch ∷ (ds ++ rest))
          ≡ parse_from (sized State.size v) (i + suc (length ds)) rest
    go none q h ih = ground arith
    go (some d) q h ih =
        advance_step _ i ch _ (size_digit acc d ch q)
        ∙ ih d h
        ∙ ap (λ k. parse_from (sized State.size v) k rest) (omega arith)

-- The first digit, which also resets the count.
idle_digits :
    (p : Parser) (i ch : ℕ) (ds rest : Bytes) {v : ℕ}
    → p.state ≡ State.idle
    → hex_value 0 (ch ∷ ds) ≡ some v
    → parse_from p i (ch ∷ (ds ++ rest)) ≡ parse_from (sized State.size v) (i + 1 + length ds) rest
unfolding hex_value
idle_digits p i ch ds rest {v} idle e = go (digit_of ch) refl e
  where
    go :
        (o : Option ℕ)
        → digit_of ch ≡ o
        → elim o [ some d ↦ hex_value (0 * 0x10 + d) ds | none ↦ none ] ≡ some v
        → parse_from p i (ch ∷ (ds ++ rest))
          ≡ parse_from (sized State.size v) (i + 1 + length ds) rest
    go none q h = ground arith
    go (some d) q h =
        advance_step p i ch _ (idle_digit p d ch idle q) ∙ size_digits _ (i + 1) ds rest h

-- The state after the size line of a chunk of `v` bytes: a chunk of size 0 is the last one.
abbrev pub body_state : ℕ → State
body_state v = if v % size_mod == 0 then State.trailer else State.in_data

-- A chunk extension, or the carriage return: no digit first, and no newline.
abbrev pub IsExtension : Bytes → Type 0
IsExtension [] = Unit
IsExtension (ch ∷ ext) = (digit_of ch ≡ none) × Lacks b'\n' (ch ∷ ext)

extension_rest :
    (v i : ℕ) (ext rest : Bytes)
    → Lacks b'\n' ext
    → parse_from (sized State.after_size v) i (ext ++ b'\n' ∷ rest)
      ≡ parse_from (sized (body_state v) v) (i + length ext + 1) rest
extension_rest v i [] rest _ =
    advance_step (sized State.after_size v) i b'\n' rest {p' = sized (body_state v) v}
      (unfold round round_in after_size_round in ground arith)
    ∙ ap (λ k. parse_from (sized (body_state v) v) k rest) (omega arith)
extension_rest v i (ch ∷ ext) rest (h, hs) =
    advance_step (sized State.after_size v) i ch _ {p' = sized State.after_size v}
      (unfold round round_in after_size_round in ground arith)
    ∙ extension_rest v (i + 1) ext rest hs
    ∙ ap (λ k. parse_from (sized (body_state v) v) k rest) (omega arith)

extension_line :
    (v i : ℕ) (ext rest : Bytes)
    → IsExtension ext
    → parse_from (sized State.size v) i (ext ++ b'\n' ∷ rest)
      ≡ parse_from (sized (body_state v) v) (i + length ext + 1) rest
extension_line v i [] rest _ =
    advance_step (sized State.size v) i b'\n' rest {p' = sized (body_state v) v}
      (unfold round round_in after_size_round digit_of in ground arith)
    ∙ ap (λ k. parse_from (sized (body_state v) v) k rest) (omega arith)
extension_line v i (ch ∷ ext) rest (h, (l, ls)) =
    advance_step (sized State.size v) i ch _ {p' = sized State.after_size v}
      (unfold round round_in after_size_round in ground arith)
    ∙ extension_rest v (i + 1) ext rest ls
    ∙ ap (λ k. parse_from (sized (body_state v) v) k rest) (omega arith)

-- A chunk's size line, digits and an extension and a newline, is read whole, and leaves the
-- written number modulo 2^64 as the number of bytes of the chunk, whatever the parser held before:
-- in the state TRAILER if that remainder is 0, else in the state DATA.
pub size_line :
    (p : Parser) (i ch : ℕ) (ds ext rest : Bytes) {v : ℕ}
    → p.state ≡ State.idle
    → hex_value 0 (ch ∷ ds) ≡ some v
    → IsExtension ext
    → parse_from p i (ch ∷ (ds ++ (ext ++ b'\n' ∷ rest)))
      ≡ parse_from (sized (body_state v) v) (i + (1 + length ds + length ext + 1)) rest
size_line p i ch ds ext rest {v} idle e x =
    idle_digits p i ch ds (ext ++ b'\n' ∷ rest) idle e
    ∙ extension_line v (i + 1 + length ds) ext rest x
    ∙ ap (λ k. parse_from (sized (body_state v) v) k rest) (omega arith)
