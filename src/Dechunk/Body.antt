-- ===== src/Dechunk/Body.antt =====
-- A whole chunked body: the entries that `ParseInput` records for it.
use cm4all_beng_proxy.Common.{
  ℕ, zero, suc, ◌+◌, ◌<◌, ◌≡◌, refl, ap, ◌∙◌, false, List, [], ◌∷◌, ◌++◌, Bytes, length, take, drop,
  take-append, ap₂, All, arith, length-append, append_assoc,
}
use cm4all_beng_proxy.Chunk
use cm4all_beng_proxy.Chunk.{State, Parser, Outcome, span, parse, consume, has_ended}
use cm4all_beng_proxy.Chunk.Frame.{Piece, IsPiece, newline, write_body, ended}
use cm4all_beng_proxy.Dechunk.Vector.{total}
use cm4all_beng_proxy.Dechunk.{
  ParsedChunk, Dechunk, max_chunks, back?, returned, input_loop, parse_input,
}
use cm4all_beng_proxy.Dechunk.Steps.{
  entries, finished, recorded, behind_data, IsBetween, drop_line, drop_piece, drop_body,
  input_loop_step, piece_round, last_round, recorded-IsBetween,
}

finished_last :
    (d : Dechunk) (n : ℕ)
    → recorded d ended n 0 ≡ finished d (record { header = n; payload = 0 } ∷ [])
unfolding has_ended
finished_last d n = ground arith

finished_more :
    (d : Dechunk) (n m : ℕ) (es : List ParsedChunk)
    → finished (recorded d behind_data n m) es
      ≡ finished d (record { header = n; payload = m } ∷ es)
unfolding has_ended
finished_more d n m es =
    ground (arith, append_assoc d.chunks (record { header = n; payload = m } ∷ []) es)

body_loop :
    (fuel : ℕ) (d : Dechunk) (sep : Bytes) (cs : List Piece) (rest : Bytes)
    → IsBetween d sep
    → All IsPiece cs
    → length d.chunks + length cs < max_chunks
    → length cs < fuel
    → input_loop fuel d (write_body sep cs rest)
      ≡ returned (finished d (entries (length sep) cs)) false
body_loop zero d sep cs rest b ps room fits = absurd (omega arith)
body_loop (suc fuel) d sep [] rest b ps room fits =
    input_loop_step fuel d _ (rw length-append (omega arith))
    ∙ last_round (input_loop fuel) d sep rest b (omega arith)
    ∙ ap (λ e. returned e false) (finished_last d _)
body_loop (suc fuel) d sep (c ∷ cs) rest b (p, ps) room fits =
    input_loop_step fuel d _ (rw length-append (omega arith))
    ∙ piece_round (input_loop fuel) d sep c (write_body newline cs rest) b p (omega arith)
    ∙ body_loop fuel _ newline cs rest (recorded-IsBetween d _ _ p.2) ps
        (rw length-append (omega arith)) (omega arith)
    ∙ ap (λ e. returned e false) (finished_more d _ _ (entries 2 cs))

-- The data that the entries pick from the raw input: each skips its header and takes its data.
pub picked : List ParsedChunk → Bytes → Bytes
picked [] raw = []
picked (e ∷ es) raw =
    take e.payload (drop e.header raw) ++ picked es (drop (e.header + e.payload) raw)

abbrev pub payloads : List Piece → Bytes
payloads [] = []
payloads (c ∷ cs) = c.payload ++ payloads cs

picked-entries :
    (sep : Bytes) (cs : List Piece) (rest : Bytes)
    → picked (entries (length sep) cs) (write_body sep cs rest) ≡ payloads cs
unfolding picked
picked-entries sep [] rest = refl
picked-entries sep (c ∷ cs) rest =
    ap₂ ◌++◌
      (ap (take (length c.payload)) (drop_line sep c (write_body newline cs rest))
        ∙ take-append c.payload (write_body newline cs rest))
      (ap (picked (entries 2 cs)) (drop_piece sep c (write_body newline cs rest))
        ∙ picked-entries newline cs rest)

write_body-longer :
    (sep : Bytes) (cs : List Piece) (rest : Bytes) → length cs < length (write_body sep cs rest)
write_body-longer sep [] rest = rw length-append (omega arith)
write_body-longer sep (c ∷ cs) rest = rw length-append (
    omega (
      arith,
      length-append c.digits (c.extension ++ b'\n' ∷ (c.payload ++ write_body newline cs rest)),
      length-append c.extension (b'\n' ∷ (c.payload ++ write_body newline cs rest)),
      length-append c.payload (write_body newline cs rest),
      write_body-longer newline cs rest,
    ))

abbrev pub new : ℕ → Dechunk
new junk = record {
  parser = Chunk.new junk;
  parsed_input = 0;
  pending_header = 0;
  chunks = [];
  end_seen = 0;
}

-- A whole body of at most 7 chunks, each with the size of its data written in its size line, is
-- read in one call of `ParseInput` by a new object: the end is seen once, all bytes of the body and
-- none behind it are parsed, and the recorded entries pick exactly the chunks' data out of the raw
-- input, in order.
pub parse_input-body :
    (junk : ℕ) (cs : List Piece) (rest : Bytes)
    → All IsPiece cs
    → length cs < max_chunks
    → (parse_input (new junk) (write_body [] cs rest)
        ≡ returned (finished (new junk) (entries 0 cs)) false)
      × (picked (entries 0 cs) (write_body [] cs rest) ≡ payloads cs)
      × (drop (total (entries 0 cs)) (write_body [] cs rest) ≡ rest)
unfolding parse_input has_ended
parse_input-body junk cs rest ps room = (
  body_loop (length (write_body [] cs rest)) (new junk) [] cs rest
      (unfold back? in record { ready = refl; settled = refl; closed = tt }) ps (omega arith)
      (write_body-longer [] cs rest),
  picked-entries [] cs rest,
  drop_body [] cs rest,
)
