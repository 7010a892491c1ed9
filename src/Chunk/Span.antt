-- ===== src/Chunk/Span.antt =====
-- src/http/ChunkParser.cxx: the span that is returned, and the state of the parser behind it.
use cm4all_beng_proxy.Common.{
  ℕ, suc, ◌+◌, ◌≤◌, ◌<◌, ◌≡◌, ◌≢◌, ◌↔◌, ◌⊎◌, refl, true, false, [], ◌∷◌, Bytes, length, arith,
}
use cm4all_beng_proxy.Chunk.{
  State, Parser, Round, advance, deliver, finish, throw, unreachable, round_in, round,
  after_size_round, after_round, Outcome, span, thrown, undefined, parse_from, parse, consume,
}

-- The assertion of the state DATA: some data is left.
abbrev pub IsValid : Parser → Type 0
IsValid p = p.state ≡ State.in_data → 0 < p.remaining_chunk

abbrev pub RoundIsValid : Parser → Round → Type 0
RoundIsValid p (advance p') = IsValid p' × (p'.state ≢ State.ended)
RoundIsValid p deliver = p.state ≡ State.in_data
RoundIsValid p (finish p') = p'.state ≡ State.ended
RoundIsValid p (throw e) = Unit
RoundIsValid p unreachable = p.state ≡ State.ended

round_in-IsValid :
    (s : State) (p : Parser) (ch : ℕ) → p.state ≡ s → RoundIsValid p (round_in s p ch)
unfolding round_in after_size_round
round_in-IsValid State.idle p ch e = ground arith
round_in-IsValid State.size p ch e = ground arith
round_in-IsValid State.after_size p ch e = ground arith
round_in-IsValid State.in_data p ch e = e
round_in-IsValid State.after_data p ch e = ground arith
round_in-IsValid State.trailer p ch e = ground arith
round_in-IsValid State.trailer_data p ch e = ground arith
round_in-IsValid State.ended p ch e = e

pub round-IsValid : (p : Parser) (ch : ℕ) → RoundIsValid p (round p ch)
unfolding round
round-IsValid p ch = round_in-IsValid p.state p ch refl

-- A span lies in the input from `i` on; it is empty only at the end of the input or of the body,
-- and otherwise it is data that the chunk still has.
pub record IsSpan (i n : ℕ) (p : Parser) (off len : ℕ) : Type 0 where
  pub from : i ≤ off
  pub within : off + len ≤ i + n
  pub stop : len ≡ 0 → (off ≡ i + n) ⊎ (p.state ≡ State.ended)
  pub chunk : 0 < len → (p.state ≡ State.in_data) × (len ≤ p.remaining_chunk)
  pub valid : IsValid p

abbrev pub OutcomeIsSpan : ℕ → ℕ → Outcome → Type 0
OutcomeIsSpan i n (span p off len) = IsSpan i n p off len
OutcomeIsSpan i n (thrown p e) = Unit
OutcomeIsSpan i n undefined = ⊥

IsSpan-shift : (i n : ℕ) (o : Outcome) → OutcomeIsSpan (i + 1) n o → OutcomeIsSpan i (suc n) o
IsSpan-shift i n (span p off len) h = ground arith
IsSpan-shift i n (thrown p e) h = tt
IsSpan-shift i n undefined h = h

after_round-IsSpan :
    (next : Parser → Outcome) (p : Parser) (i n : ℕ) (r : Round)
    → ((p' : Parser) → IsValid p' → p'.state ≢ State.ended → OutcomeIsSpan (i + 1) n (next p'))
    → IsValid p
    → p.state ≢ State.ended
    → RoundIsValid p r
    → OutcomeIsSpan i (suc n) (after_round next p i (suc n) r)
unfolding after_round
after_round-IsSpan next p i n (advance p') ih v o (h, h') = IsSpan-shift i n _ (ih p' h h')
after_round-IsSpan next p i n deliver ih v o h = ground arith
after_round-IsSpan next p i n (finish p') ih v o h = ground arith
after_round-IsSpan next p i n (throw e) ih v o h = tt
after_round-IsSpan next p i n unreachable ih v o h = o h

parse_from-IsSpan :
    (p : Parser) (i : ℕ) (input : Bytes)
    → IsValid p
    → p.state ≢ State.ended
    → OutcomeIsSpan i (length input) (parse_from p i input)
unfolding parse_from
parse_from-IsSpan p i [] v o = ground arith
parse_from-IsSpan p i (ch ∷ rest) v o =
    after_round-IsSpan _ p i (length rest) (round p ch) (λ p'. parse_from-IsSpan p' (i + 1) rest) v
      o (round-IsValid p ch)

-- A call on a parser that has not ended, and that has some of its chunk left in the state DATA,
-- is never undefined, and if it returns, then it returns a span inside the input. The span is
-- empty only where the whole input or the end of the body has been read; else it is chunk data, no
-- longer than what remains of the chunk. The parser still has some of its chunk left in that state.
pub parse-IsSpan :
    (p : Parser) (input : Bytes)
    → IsValid p
    → p.state ≢ State.ended
    → OutcomeIsSpan 0 (length input) (parse p input)
unfolding parse
parse-IsSpan p input v o = parse_from-IsSpan p 0 input v o

-- Consuming no more than remains keeps the invariant, and reports the end of the chunk exactly
-- when nothing remains.
pub consume-IsValid :
    (p : Parser) (n : ℕ)
    → p.state ≡ State.in_data
    → n ≤ p.remaining_chunk
    → IsValid (consume p n).0
      × ((consume p n).0.remaining_chunk + n ≡ p.remaining_chunk)
      × (((consume p n).1 ≡ true) ↔ (n ≡ p.remaining_chunk))
      × ((consume p n).1 ≡ true → (consume p n).0.state ≡ State.after_data)
      × ((consume p n).1 ≡ false → (consume p n).0.state ≡ State.in_data)
unfolding consume
consume-IsValid p n e h = ground arith
