-- ===== src/Dechunk/Account.antt =====
-- src/istream/DechunkIstream.cxx: the counts `parsed_input` and `pending_header` beside the
-- recorded chunks.
use cm4all_beng_proxy.Common.{
  ℕ, zero, suc, ◌+◌, ◌-◌, ◌≤◌, ◌<◌, ◌≡◌, ◌≢◌, ◌⊎◌, inl, inr, refl, true, false, Option, none, some,
  List, [], ◌∷◌, Bytes, length, drop, All, arith, Bool-cases, length-drop,
}
use cm4all_beng_proxy.Chunk.{State, Parser, Outcome, span, thrown, undefined, parse, has_ended}
use cm4all_beng_proxy.Chunk.Span.{IsValid, IsSpan, OutcomeIsSpan, parse-IsSpan, consume-IsValid}
use cm4all_beng_proxy.Dechunk.{
  ParsedChunk, Dechunk, max_chunks, add_header, add_data, Parsed, returned, failed, no_meaning,
  spinning, take_data, take_header, saw_span, after_data, after_header, input_round, input_loop,
  parse_input,
}
use cm4all_beng_proxy.Dechunk.Vector.{
  total, IsFilled, add_header-Grown, add_data-Grown, add_header-full, add_data-ne-none,
}

-- The counts agree with the vector, and the parser has some of its chunk left in the state DATA.
pub record IsAccounted (d : Dechunk) : Type 0 where
  pub counted : d.parsed_input ≡ total d.chunks + d.pending_header
  pub room : length d.chunks ≤ max_chunks
  pub filled : All IsFilled d.chunks
  pub parser : IsValid d.parser

record HeaderTaken (d d' : Dechunk) : Type 0 where
  accounted : IsAccounted d'
  same_parser : d'.parser ≡ d.parser
  same_input : d'.parsed_input ≡ d.parsed_input
  no_pending : d'.pending_header ≡ 0

take_header-IsAccounted :
    (d : Dechunk) {d' : Dechunk} → IsAccounted d → take_header d ≡ some d' → HeaderTaken d d'
unfolding take_header
take_header-IsAccounted d {d'} a h = go (add_header d.chunks d.pending_header) refl
  where
    go :
        (o : Option (List ParsedChunk))
        → add_header d.chunks d.pending_header ≡ o
        → HeaderTaken d d'
    go none e = ground arith
    go (some cs) e = ground (arith, add_header-Grown d.pending_header d.chunks {ds = cs})

take_header-full : (d : Dechunk) → take_header d ≡ none → max_chunks ≤ length d.chunks
unfolding take_header
take_header-full d h = ground (arith, add_header-full d.pending_header d.chunks)

record DataTaken (d : Dechunk) (n : ℕ) (d' : Dechunk) : Type 0 where
  accounted : IsAccounted d'
  more_input : d'.parsed_input ≡ d.parsed_input + n
  open_parser : 0 < n → d'.parser.state ≢ State.ended
  same_parser : n ≡ 0 → d'.parser ≡ d.parser

take_data-IsAccounted :
    (d : Dechunk) (n : ℕ) {d' : Dechunk}
    → IsAccounted d
    → d.pending_header ≡ 0
    → (0 < n → (d.parser.state ≡ State.in_data) × (n ≤ d.parser.remaining_chunk))
    → take_data d n ≡ some d'
    → DataTaken d n d'
unfolding take_data
take_data-IsAccounted d zero {d'} a z c h = ground arith
take_data-IsAccounted d (suc n) {d'} a z c h = go (add_data d.chunks (suc n)) refl
  where
    go : (o : Option (List ParsedChunk)) → add_data d.chunks (suc n) ≡ o → DataTaken d (suc n) d'
    go none e = ground arith
    go (some cs) e =
        ground (arith, add_data-Grown (suc n) d.chunks {ds = cs}, consume-IsValid d.parser (suc n))

-- What a call of `ParseInput` leaves behind, from `m` bytes of parsed input and `n` of new input.
abbrev pub ParsedIsAccounted : ℕ → ℕ → Parsed → Type 0
ParsedIsAccounted m n (returned d true) =
    IsAccounted d × (d.parsed_input ≡ m + n) × (has_ended d.parser ≡ false)
ParsedIsAccounted m n (returned d false) =
    IsAccounted d
    × (m ≤ d.parsed_input)
    × (d.parsed_input ≤ m + n)
    × ((has_ended d.parser ≡ true) ⊎ (max_chunks ≤ length d.chunks))
ParsedIsAccounted m n (failed d e) = Unit
ParsedIsAccounted m n no_meaning = ⊥
ParsedIsAccounted m n spinning = ⊥

ParsedIsAccounted-later :
    (m n k : ℕ) (r : Parsed) → k ≤ n → ParsedIsAccounted (m + k) (n - k) r → ParsedIsAccounted m n r
ParsedIsAccounted-later m n k (returned d true) le (a, p, o) = (a, omega arith, o)
ParsedIsAccounted-later m n k (returned d false) le (a, p, q, o) = (a, omega arith, omega arith, o)
ParsedIsAccounted-later m n k (failed d e) le h = tt
ParsedIsAccounted-later m n k no_meaning le h = h
ParsedIsAccounted-later m n k spinning le h = h

has_ended-true : (p : Parser) → p.state ≡ State.ended → has_ended p ≡ true
unfolding has_ended
has_ended-true p h = ground arith

has_ended-false : (p : Parser) → has_ended p ≡ false → p.state ≢ State.ended
unfolding has_ended
has_ended-false p h = ground arith

take_data-ne-none : (d : Dechunk) (n : ℕ) → take_data d n ≢ none
unfolding take_data
take_data-ne-none d zero = ground arith
take_data-ne-none d (suc n) = ground (arith, add_data-ne-none (suc n) d.chunks)

saw_span-IsAccounted :
    (d : Dechunk) (p : Parser) (off : ℕ)
    → IsAccounted d
    → IsValid p
    → IsAccounted (saw_span d p off)
unfolding saw_span
saw_span-IsAccounted d p off a v = ground arith

-- The rounds to come, on at most `fuel` bytes.
abbrev Continues : ℕ → (Dechunk → Bytes → Parsed) → Type 0
Continues fuel next =
    (d : Dechunk) (src : Bytes)
    → IsAccounted d
    → has_ended d.parser ≡ false
    → length src ≤ fuel
    → ParsedIsAccounted d.parsed_input (length src) (next d src)

module _ (fuel : ℕ) (next : Dechunk → Bytes → Parsed) (ih : Continues fuel next) (d : Dechunk)
    (src : Bytes) (fits : length src ≤ suc fuel) (some_input : 0 < length src) (p : Parser)
    (off len : ℕ) (s : IsSpan 0 (length src) p off len) where
  data_round :
      (d₂ : Dechunk) (o : Option Dechunk)
      → HeaderTaken (saw_span d p off) d₂
      → take_data d₂ len ≡ o
      → ParsedIsAccounted d.parsed_input (length src) (after_data next d₂ (drop (off + len) src) o)
  unfolding saw_span after_data
  data_round d₂ none h q = absurd (take_data-ne-none d₂ len q)
  data_round d₂ (some d₃) h q =
      let t : DataTaken d₂ len d₃ =
        take_data-IsAccounted d₂ len h.accounted h.no_pending (rw h.same_parser s.chunk) q in
      elim (Bool-cases (has_ended d₃.parser)) [
        | inl e ↦ rw e (t.accounted, ground arith, ground (arith, s.within), inl e)
        | inr e ↦
            let taken : off + len ≤ length src = omega (arith, s.within) in
            let progress : 0 < off + len = ground (arith, s.stop, has_ended-true d₃.parser) in
            let input : d₃.parsed_input ≡ d.parsed_input + (off + len) = ground arith in
            rw e (
              ParsedIsAccounted-later d.parsed_input (length src) (off + len) _ taken (
                rw (← input, ← length-drop (off + len) src)
                  (ih d₃ (drop (off + len) src) t.accounted e (rw length-drop (omega arith)))))
      ]

  header_round :
      (o : Option Dechunk)
      → IsAccounted d
      → take_header (saw_span d p off) ≡ o
      → ParsedIsAccounted d.parsed_input
          (length src)
          (after_header next (saw_span d p off) len (drop (off + len) src) o)
  unfolding saw_span after_header
  header_round none a q = (
    saw_span-IsAccounted d p off a s.valid,
    omega arith,
    omega (arith, s.within),
    inr (take_header-full (saw_span d p off) q),
  )
  header_round (some d₂) a q =
      data_round d₂ (take_data d₂ len)
        (take_header-IsAccounted (saw_span d p off) (saw_span-IsAccounted d p off a s.valid) q) refl

input_round-IsAccounted :
    (fuel : ℕ) (next : Dechunk → Bytes → Parsed) (d : Dechunk) (src : Bytes) (o : Outcome)
    → Continues fuel next
    → length src ≤ suc fuel
    → 0 < length src
    → IsAccounted d
    → OutcomeIsSpan 0 (length src) o
    → ParsedIsAccounted d.parsed_input (length src) (input_round next d src o)
unfolding input_round
input_round-IsAccounted fuel next d src (span p off len) ih fits pos a s =
    header_round fuel next ih d src fits pos p off len s (take_header (saw_span d p off)) a refl
input_round-IsAccounted fuel next d src (thrown p e) ih fits pos a s = tt
input_round-IsAccounted fuel next d src undefined ih fits pos a s = s

input_loop-IsAccounted : (fuel : ℕ) → Continues fuel (input_loop fuel)
unfolding input_loop
input_loop-IsAccounted fuel d [] a o h = (a, omega arith, o)
input_loop-IsAccounted zero d (ch ∷ src) a o h = absurd (omega arith)
input_loop-IsAccounted (suc fuel) d (ch ∷ src) a o h =
    input_round-IsAccounted fuel (input_loop fuel) d (ch ∷ src) (parse d.parser (ch ∷ src))
      (input_loop-IsAccounted fuel) h (omega arith) a
      (parse-IsSpan d.parser (ch ∷ src) a.parser (has_ended-false d.parser o))

-- From an object whose counts agree with its vector, a call of `ParseInput` comes to an end within
-- its fuel and is never undefined. If it returns, the counts agree again, and the parsed input
-- has grown by no more than the new input. It returns true only if all of the new input has been
-- parsed and the body goes on, and false only if the body has ended or the vector is full.
pub parse_input-IsAccounted :
    (d : Dechunk) (src : Bytes)
    → IsAccounted d
    → ParsedIsAccounted d.parsed_input (length src) (parse_input d src)
unfolding parse_input
parse_input-IsAccounted d src a = elim (Bool-cases (has_ended d.parser)) [
  | inl e ↦ rw e (a, omega arith, omega arith, inl e)
  | inr e ↦ rw e (input_loop-IsAccounted (length src) d src a e (omega arith))
]
