-- ===== src/Chunk.antt =====
-- src/http/ChunkParser.cxx and ChunkParser.hxx: the incremental parser of
-- "Transfer-Encoding: chunked". A byte is a number; `remaining_chunk` is a 64-bit size_t.
pub mod Span
pub mod Size
pub mod Split
pub mod Frame
use cm4all_beng_proxy.Common.{
  ℕ, zero, suc, ◌+◌, ◌-◌, ◌*◌, ◌%◌, ◌^◌, min, Bool, true, false, ◌&&◌, Option, none, some, [], ◌∷◌,
  Bytes, length, leb, ◌==◌, if◌then◌else◌,
}

-- `enum class State`; DATA is `in_data`, since `data` is a reserved word.
pub data State : Type 0 where
  idle size after_size in_data after_data trailer trailer_data ended : State

pub record Parser : Type 0 where
  pub state : State
  pub remaining_chunk : ℕ

pub data Error : Type 0 where
  chunk_length_expected newline_expected : Error

-- What one round of the loop does with the byte `ch`.
pub data Round : Type 0 where
  -- `++p`, and the loop goes on
  advance : Parser → Round
  -- return {p, min(end - p, remaining_chunk)}
  deliver : Round
  -- `++p`, then return {p, 0}
  finish : Parser → Round
  throw : Error → Round
  -- std::unreachable()
  unreachable : Round

-- The value of a hexadecimal digit, by the three ranges of the code.
unfoldable pub digit_of : ℕ → Option ℕ
digit_of ch =
    if leb b'0' ch && leb ch b'9'
    then some (ch - b'0')
    else if leb b'a' ch && leb ch b'f'
    then some (ch - b'a' + 0xa)
    else if leb b'A' ch && leb ch b'F'
    then some (ch - b'A' + 0xa)
    else none

unfoldable pub after_size_round : Parser → ℕ → Round
after_size_round p ch =
    if ch == b'\n'
    then advance
        (record p { state = if p.remaining_chunk == 0 then State.trailer else State.in_data })
    else advance p

-- `remaining_chunk * 0x10 + digit`, in a size_t
abbrev pub size_mod : ℕ
size_mod = 2 ^ 64

unfoldable pub add_digit : ℕ → ℕ → ℕ
add_digit remaining digit = (remaining * 0x10 + digit) % size_mod

-- The body of the loop, by the state in the switch. In the state SIZE a byte that is no digit is
-- read again in the state AFTER_SIZE, which always takes it.
unfoldable pub round_in : State → Parser → ℕ → Round
round_in State.idle p ch = elim (digit_of ch) [
  | some digit ↦ advance (record p { state = State.size; remaining_chunk = add_digit 0 digit })
  | none ↦ throw Error.chunk_length_expected
]
round_in State.size p ch = elim (digit_of ch) [
  | some digit ↦ advance (record p { remaining_chunk = add_digit p.remaining_chunk digit })
  | none ↦ after_size_round (record p { state = State.after_size }) ch
]
round_in State.after_size p ch = after_size_round p ch
round_in State.in_data p ch = deliver
round_in State.after_data p ch =
    if ch == b'\n'
    then advance (record p { state = State.idle })
    else if ch == b'\r'
    then advance p
    else throw Error.newline_expected
round_in State.trailer p ch =
    if ch == b'\n'
    then finish (record p { state = State.ended })
    else if ch == b'\r'
    then advance p
    else advance (record p { state = State.trailer_data })
round_in State.trailer_data p ch =
    if ch == b'\n' then advance (record p { state = State.trailer }) else advance p
round_in State.ended p ch = unreachable

unfoldable pub round : Parser → ℕ → Round
unfolding round_in
round p ch = round_in p.state p ch

-- What `Parse` does: it returns a span of the input, by its offset and length, or throws, or is
-- undefined. The parser is the object as the call leaves it.
pub data Outcome : Type 0 where
  span : Parser → ℕ → ℕ → Outcome
  thrown : Parser → Error → Outcome
  undefined : Outcome

-- What follows a round at offset `i`, with `left` bytes of input from there on: the loop goes on
-- by `next`, or `Parse` ends.
unfoldable pub after_round : (Parser → Outcome) → Parser → ℕ → ℕ → Round → Outcome
after_round next p i left (advance p') = next p'
after_round next p i left deliver = span p i (min left p.remaining_chunk)
after_round next p i left (finish p') = span p' (i + 1) 0
after_round next p i left (throw e) = thrown p e
after_round next p i left unreachable = undefined

-- The loop at `p = i`, with the rest of the input.
unfoldable pub parse_from : Parser → ℕ → Bytes → Outcome
unfolding after_round
parse_from p i [] = span p i 0
parse_from p i (ch ∷ rest) =
    after_round (λ p'. parse_from p' (i + 1) rest) p i (suc (length rest)) (round p ch)

unfoldable pub parse : Parser → Bytes → Outcome
unfolding parse_from
parse p input = parse_from p 0 input

-- `Consume`; the caller has read `nbytes` of the data. The subtraction stays above 0 under the
-- assertion `nbytes <= remaining_chunk`.
unfoldable pub consume : Parser → ℕ → Parser × Bool
consume p nbytes =
    let remaining = p.remaining_chunk - nbytes in
    if remaining == 0
    then (record { state = State.after_data; remaining_chunk = remaining }, true)
    else (record p { remaining_chunk = remaining }, false)

unfoldable pub get_available : Parser → ℕ
get_available p = elim p.state [ State.in_data ↦ p.remaining_chunk | _ ↦ 0 ]

unfoldable pub has_ended : Parser → Bool
has_ended p = elim p.state [ State.ended ↦ true | _ ↦ false ]

-- A new object; `remaining_chunk` is not initialised, so it is any number.
abbrev pub new : ℕ → Parser
new junk = record { state = State.idle; remaining_chunk = junk }
