-- ===== src/Tests/Chunks.antt =====
-- The chunk parser and the dechunker at concrete inputs (src/http/ChunkParser.cxx and
-- src/istream/DechunkIstream.cxx).
use cm4all_beng_proxy.Common.{◌+◌, ◌≡◌, refl, false, [], ◌∷◌, ◌++◌, drop, codes, arith}
use cm4all_beng_proxy.Chunk
use cm4all_beng_proxy.Chunk.{
  State, Parser, span, thrown, Error, parse, parse_from, digit_of, after_size_round,
}
use cm4all_beng_proxy.Chunk.Span.{OutcomeIsSpan, parse-IsSpan}
use cm4all_beng_proxy.Chunk.Split.{shift, parse-append}
use cm4all_beng_proxy.Chunk.Size.{hex_value, sized, size_line}
use cm4all_beng_proxy.Chunk.Frame.{Piece, IsPiece, write_body}
use cm4all_beng_proxy.Dechunk.{returned, parse_input}
use cm4all_beng_proxy.Dechunk.Account.{ParsedIsAccounted, parse_input-IsAccounted}
use cm4all_beng_proxy.Dechunk.Body
use cm4all_beng_proxy.Dechunk.Vector.{total}
use cm4all_beng_proxy.Dechunk.Steps.{entries, finished}
use cm4all_beng_proxy.Dechunk.Body.{picked, payloads, parse_input-body}

abbrev fresh : Parser
fresh = Chunk.new 99

-- a chunk of 5 bytes, of which 2 have arrived
first_chunk :
    parse fresh (codes "5\r\nhe") ≡ span (record { state = State.in_data; remaining_chunk = 5 }) 3 2
unfolding parse Chunk.round Chunk.round_in Chunk.digit_of Chunk.add_digit Chunk.after_size_round
first_chunk = refl

no_digit : parse fresh (codes "x") ≡ thrown fresh Error.chunk_length_expected
unfolding parse Chunk.round Chunk.round_in Chunk.digit_of
no_digit = refl

-- a size of 17 digits wraps to 0, which the parser takes for the last chunk
wrapped_size :
    parse fresh (codes "10000000000000000\r\n")
    ≡ span (record { state = State.trailer; remaining_chunk = 0 }) 19 0
unfolding parse Chunk.round Chunk.round_in Chunk.digit_of Chunk.add_digit Chunk.after_size_round
wrapped_size = refl

parse-IsSpan_example : OutcomeIsSpan 0 7 (parse fresh (codes "5\r\nhell"))
parse-IsSpan_example = parse-IsSpan fresh (codes "5\r\nhell") (λ h. cc) (λ h. cc)

abbrev in_size : Parser
in_size = record { state = State.size; remaining_chunk = 1 }

one_digit : parse fresh (codes "1") ≡ span in_size 1 0
unfolding parse Chunk.round Chunk.round_in Chunk.digit_of Chunk.add_digit
one_digit = refl

parse-append_example :
    parse fresh (codes "1" ++ codes "0\r\n") ≡ shift 1 (parse in_size (codes "0\r\n"))
parse-append_example =
    parse-append fresh (codes "1") (codes "0\r\n") {p' = in_size} (λ h. cc) one_digit (λ h. cc)

size_line_example :
    parse_from fresh 0 (b'2' ∷ (codes "a" ++ (codes ";x\r" ++ b'\n' ∷ codes "rest")))
    ≡ parse_from (sized State.in_data 42) (0 + (1 + 1 + 3 + 1)) (codes "rest")
size_line_example =
    size_line fresh 0 b'2' (codes "a") (codes ";x\r") (codes "rest") {v = 42} refl
      (unfold hex_value digit_of in refl) (unfold digit_of in refl, omega arith)

abbrev hello : Piece
hello = record { first = b'5'; digits = []; extension = codes "\r"; payload = codes "hello" }

hello-IsPiece : IsPiece hello
unfolding hex_value digit_of
hello-IsPiece = (refl, (refl, omega arith), omega arith, omega arith)

parse_input-body_example :
    (parse_input (Body.new 7) (write_body [] (hello ∷ hello ∷ []) (codes "GET"))
      ≡ returned (finished (Body.new 7) (entries 0 (hello ∷ hello ∷ []))) false)
    × (picked (entries 0 (hello ∷ hello ∷ [])) (write_body [] (hello ∷ hello ∷ []) (codes "GET"))
        ≡ payloads (hello ∷ hello ∷ []))
    × (drop
          (total (entries 0 (hello ∷ hello ∷ [])))
          (write_body [] (hello ∷ hello ∷ []) (codes "GET"))
        ≡ codes "GET")
parse_input-body_example =
    parse_input-body 7 (hello ∷ hello ∷ []) (codes "GET") (hello-IsPiece, (hello-IsPiece, tt))
      (omega arith)

parse_input-IsAccounted_example :
    ParsedIsAccounted 0 7 (parse_input (Body.new 7) (codes "5\r\nhell"))
parse_input-IsAccounted_example =
    parse_input-IsAccounted (Body.new 7) (codes "5\r\nhell")
      (record { counted = refl; room = omega arith; filled = tt; parser = λ h. cc })
