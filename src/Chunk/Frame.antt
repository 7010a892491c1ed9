-- ===== src/Chunk/Frame.antt =====
-- Whole chunks in the input: `Parse` finds exactly the data of the next chunk, and the end of the
-- body.
use native.Mathlib.Nat.{mod-eq_of_lt}
use cm4all_beng_proxy.Common.{
  ℕ, ◌+◌, ◌<◌, ◌≡◌, refl, ap, ◌∙◌, some, List, [], ◌∷◌, ◌++◌, Bytes, length, codes, arith,
  length-append,
}
use cm4all_beng_proxy.Chunk.{
  State, Parser, round, round_in, digit_of, size_mod, span, parse_from, parse, after_round,
}
use cm4all_beng_proxy.Chunk.Size.{
  hex_value, IsExtension, size_line, sized, body_state, advance_step,
}

-- A chunk as it is written: the size's first digit, its other digits, what follows up to the
-- newline, and the data.
pub record Piece : Type 0 where
  pub first : ℕ
  pub digits : Bytes
  pub extension : Bytes
  pub payload : Bytes

-- The size is right, the chunk is not empty, and its size fits a size_t.
abbrev pub IsPiece : Piece → Type 0
IsPiece c =
    (hex_value 0 (c.first ∷ c.digits) ≡ some (length c.payload))
    × IsExtension c.extension
    × (0 < length c.payload)
    × (length c.payload < size_mod)

abbrev pub line_size : Piece → ℕ
line_size c = 1 + length c.digits + length c.extension + 1

abbrev pub write_piece : Piece → Bytes → Bytes
write_piece c rest = c.first ∷ (c.digits ++ (c.extension ++ b'\n' ∷ (c.payload ++ rest)))

abbrev pub newline : Bytes
newline = b'\r' ∷ b'\n' ∷ []

-- Before a size line stands nothing at first, and the newline after a chunk's data later.
abbrev pub IsReady : Parser → Bytes → Type 0
IsReady p [] = p.state ≡ State.idle
IsReady p (c ∷ s) = (p.state ≡ State.after_data) × (c ≡ b'\r') × (s ≡ b'\n' ∷ [])

-- The whole body behind a separator: the chunks, the last chunk of size 0, and what follows.
abbrev pub write_body : Bytes → List Piece → Bytes → Bytes
write_body sep [] rest = sep ++ (codes "0\r\n\r\n" ++ rest)
write_body sep (c ∷ cs) rest = sep ++ write_piece c (write_body newline cs rest)

ready_line :
    (p : Parser) (sep : Bytes) (i : ℕ) (x : Bytes)
    → IsReady p sep
    → (q : Parser) × (q.state ≡ State.idle)
      × (parse_from p i (sep ++ x) ≡ parse_from q (i + length sep) x)
ready_line p [] i x h = (p, h, ap (λ k. parse_from p k x) (omega arith))
ready_line p (c ∷ s) i x (h, e, f) =
    (idle, refl, rw (e, f) (step_r ∙ step_n ∙ ap (λ k. parse_from idle k x) (omega arith)))
  where
    idle : Parser
    idle = record p { state = State.idle }

    step_r : parse_from p i (b'\r' ∷ b'\n' ∷ x) ≡ parse_from p (i + 1) (b'\n' ∷ x)
    step_r = advance_step p i b'\r' _ {p' = p} (unfold round round_in in ground arith)

    step_n : parse_from p (i + 1) (b'\n' ∷ x) ≡ parse_from idle (i + 1 + 1) x
    step_n = advance_step p (i + 1) b'\n' x {p' = idle} (unfold round round_in in ground arith)

piece_data :
    (v i : ℕ) (payload rest : Bytes)
    → length payload ≡ v
    → 0 < v
    → v < size_mod
    → parse_from (sized (body_state v) v) i (payload ++ rest)
      ≡ span (record { state = State.in_data; remaining_chunk = v }) i v
unfolding parse_from round round_in after_round
piece_data v i [] rest e pos big = absurd (omega arith)
piece_data v i (ch ∷ payload) rest e pos big =
    rw (mod-eq_of_lt big) (ground (arith, length-append payload rest))

-- In the data of a chunk, `v` bytes before its end.
abbrev pub within : ℕ → Parser
within v = record { state = State.in_data; remaining_chunk = v }

-- A call where a chunk begins, in the separator before it or behind that, finds exactly the
-- chunk's data, behind its size line, and expects that many bytes.
pub piece_span :
    (p : Parser) (sep : Bytes) (c : Piece) (rest : Bytes)
    → IsReady p sep
    → IsPiece c
    → parse p (sep ++ write_piece c rest)
      ≡ span (within (length c.payload)) (length sep + line_size c) (length c.payload)
unfolding parse
piece_span p sep c rest ready (size, ext, pos, big) =
    let (q, idle, e) = ready_line p sep 0 (write_piece c rest) ready in
    e
    ∙ size_line q (0 + length sep) c.first c.digits c.extension (c.payload ++ rest) idle size ext
    ∙ piece_data (length c.payload) _ c.payload rest refl pos big
    ∙ ap (λ k. span (within (length c.payload)) k (length c.payload)) (omega arith)

abbrev pub ended : Parser
ended = record { state = State.ended; remaining_chunk = 0 }

last_rest :
    (i : ℕ) (rest : Bytes)
    → parse_from (sized State.trailer 0) i (b'\r' ∷ b'\n' ∷ rest) ≡ span ended (i + 2) 0
unfolding parse_from round round_in after_round
last_rest i rest = ap (λ k. span ended k 0) (omega arith)

-- The last chunk, with no trailer, ends the body; what follows is left alone.
pub last_span :
    (p : Parser) (sep rest : Bytes)
    → IsReady p sep
    → parse p (sep ++ (codes "0\r\n\r\n" ++ rest)) ≡ span ended (length sep + 5) 0
unfolding parse hex_value digit_of
last_span p sep rest ready =
    let (q, idle, e) = ready_line p sep 0 (codes "0\r\n\r\n" ++ rest) ready in
    e
    ∙ size_line q (0 + length sep) b'0' [] (b'\r' ∷ []) (b'\r' ∷ b'\n' ∷ rest) {v = 0} idle refl
        (refl, omega arith)
    ∙ last_rest _ rest
    ∙ ap (λ k. span ended k 0) (omega arith)
