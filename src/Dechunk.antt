-- ===== src/Dechunk.antt =====
-- src/istream/DechunkIstream.cxx: the part that finds the chunk boundaries in the raw input.
-- `chunks` is a StaticVector of at most 8 entries, in the order of the input.
pub mod Vector
pub mod Account
pub mod Steps
pub mod Body
use cm4all_beng_proxy.Common.{
  ℕ, zero, suc, ◌+◌, ◌-◌, Bool, true, false, ◌&&◌, Option, none, some, List, [], ◌∷◌, ◌++◌, Bytes,
  length, drop, ltb, ◌==◌, if◌then◌else◌,
}
use cm4all_beng_proxy.Chunk.{
  Parser, Error, Outcome, span, thrown, undefined, parse, consume, has_ended,
}

-- `struct ParsedChunk`; the field `data` is `payload`, since `data` is a reserved word.
pub record ParsedChunk : Type 0 where
  pub header : ℕ
  pub payload : ℕ

pub record Dechunk : Type 0 where
  pub parser : Parser
  pub parsed_input : ℕ
  pub pending_header : ℕ
  pub chunks : List ParsedChunk
  -- how often `OnDechunkEndSeen` was called
  pub end_seen : ℕ

abbrev pub max_chunks : ℕ
max_chunks = 8

module _ {ℓ} {A : Type ℓ} where
  -- `back()` of a vector, and a write to it.
  unfoldable pub back? : List A → Option A
  back? [] = none
  back? (x ∷ []) = some x
  back? (x ∷ y ∷ xs) = back? (y ∷ xs)

  unfoldable pub set_back : List A → A → List A
  set_back [] v = []
  set_back (x ∷ []) v = v ∷ []
  set_back (x ∷ y ∷ xs) v = x ∷ set_back (y ∷ xs) v

emplace_back : List ParsedChunk → ParsedChunk → Option (List ParsedChunk)
emplace_back chunks c = if ltb (length chunks) max_chunks then some (chunks ++ c ∷ []) else none

-- `AddHeader` and `AddData`: the new vector, or `none` for false, where nothing changes. The
-- branches are on the last entry, if there is one.
header_at : List ParsedChunk → ℕ → Option ParsedChunk → Option (List ParsedChunk)
unfolding emplace_back set_back
header_at chunks size (some c) =
    if c.payload == 0
    then some (set_back chunks (record c { header = c.header + size }))
    else emplace_back chunks (record { header = size; payload = 0 })
header_at chunks size none = emplace_back chunks (record { header = size; payload = 0 })

unfoldable pub add_header : List ParsedChunk → ℕ → Option (List ParsedChunk)
unfolding header_at back?
add_header chunks size = header_at chunks size (back? chunks)

data_at : List ParsedChunk → ℕ → Option ParsedChunk → Option (List ParsedChunk)
unfolding emplace_back set_back
data_at chunks size (some c) = some (set_back chunks (record c { payload = c.payload + size }))
data_at chunks size none = emplace_back chunks (record { header = 0; payload = size })

unfoldable pub add_data : List ParsedChunk → ℕ → Option (List ParsedChunk)
unfolding data_at back?
add_data chunks size = data_at chunks size (back? chunks)

-- What `ParseInput` does: it returns whether more can be parsed, or throws, or is undefined;
-- `spinning` stands for a loop that has used up its fuel.
pub data Parsed : Type 0 where
  returned : Dechunk → Bool → Parsed
  failed : Dechunk → Error → Parsed
  no_meaning : Parsed
  spinning : Parsed

-- The chunk of data that `Parse` has found is recorded and consumed.
unfoldable pub take_data : Dechunk → ℕ → Option Dechunk
take_data d zero = some d
take_data d (suc n) = elim (add_data d.chunks (suc n)) [
  | none ↦ none
  | some cs ↦ some (record d {
    parser = (consume d.parser (suc n)).0;
    parsed_input = d.parsed_input + suc n;
    chunks = cs;
  })
]

-- The header bytes before the data are recorded; `none` means that the vector is full.
unfoldable pub take_header : Dechunk → Option Dechunk
take_header d =
    if ltb 0 d.pending_header
    then elim (add_header d.chunks d.pending_header) [
      | none ↦ none
      | some cs ↦ some (record d { pending_header = 0; chunks = cs })
    ]
    else some d

-- The object after `Parse` has returned a span at `off`: the parser, the event, the counts.
unfoldable pub saw_span : Dechunk → Parser → ℕ → Dechunk
saw_span d p off = record d {
  parser = p;
  parsed_input = d.parsed_input + off;
  pending_header = d.pending_header + off;
  end_seen = if has_ended p then d.end_seen + 1 else d.end_seen;
}

-- One round of the loop in `ParseInput`, with `next` for the rounds to come. The steps after the
-- header and after the data have been recorded are functions of their own; `rest` is what the span
-- leaves of the input.
after_data : (Dechunk → Bytes → Parsed) → Dechunk → Bytes → Option Dechunk → Parsed
after_data next d rest none = returned d false
after_data next d rest (some d') =
    let later = next d' rest in if has_ended d'.parser then returned d' false else later

after_header : (Dechunk → Bytes → Parsed) → Dechunk → ℕ → Bytes → Option Dechunk → Parsed
unfolding after_data
after_header next d len rest none = returned d false
after_header next d len rest (some d') = after_data next d' rest (take_data d' len)

unfoldable pub input_round : (Dechunk → Bytes → Parsed) → Dechunk → Bytes → Outcome → Parsed
unfolding after_header
input_round next d src (thrown p e) = failed (record d { parser = p }) e
input_round next d src undefined = no_meaning
input_round next d src (span p off len) =
    let d' = saw_span d p off in after_header next d' len (drop (off + len) src) (take_header d')

unfoldable pub input_loop : ℕ → Dechunk → Bytes → Parsed
unfolding input_round
input_loop fuel d [] = returned d true
input_loop zero d (ch ∷ src) = spinning
input_loop (suc fuel) d (ch ∷ src) =
    input_round (input_loop fuel) d (ch ∷ src) (parse d.parser (ch ∷ src))

-- A round takes a byte at least, so the length of the input is enough fuel.
unfoldable pub parse_input : Dechunk → Bytes → Parsed
unfolding input_loop
parse_input d src = if has_ended d.parser then returned d false else input_loop (length src) d src
