-- ===== src/Chunk/Split.antt =====
-- src/http/ChunkParser.cxx: calls on the parts of an input.
use cm4all_beng_proxy.Common.{
  ℕ, suc, ◌+◌, ◌≡◌, ◌≢◌, refl, ap, ◌∙◌, [], ◌∷◌, ◌++◌, Bytes, length, arith,
}
use native.Mathlib.Nat.{add_assoc, zero-add}
use cm4all_beng_proxy.Chunk.{
  State, Parser, Round, advance, deliver, finish, throw, unreachable, round, after_round, Outcome,
  span, thrown, undefined, parse_from, parse,
}
use cm4all_beng_proxy.Chunk.Span.{IsValid, RoundIsValid, round-IsValid}

-- The same outcome, its offset counted from `n` bytes earlier.
pub shift : ℕ → Outcome → Outcome
shift n (span p off len) = span p (n + off) len
shift n (thrown p e) = thrown p e
shift n undefined = undefined

after_round-shift :
    (f g : Parser → Outcome) (p : Parser) (n i left : ℕ) (r : Round)
    → ((p' : Parser) → f p' ≡ shift n (g p'))
    → after_round f p (n + i) left r ≡ shift n (after_round g p i left r)
unfolding after_round shift
after_round-shift f g p n i left (advance p') ih = ih p'
after_round-shift f g p n i left deliver ih = refl
after_round-shift f g p n i left (finish p') ih = ap (λ k. span p' k 0) (omega arith)
after_round-shift f g p n i left (throw e) ih = refl
after_round-shift f g p n i left unreachable ih = refl

parse_from-shift :
    (p : Parser) (n i : ℕ) (input : Bytes)
    → parse_from p (n + i) input ≡ shift n (parse_from p i input)
unfolding parse_from shift
parse_from-shift p n i [] = refl
parse_from-shift p n i (ch ∷ rest) =
    after_round-shift _ _ p n i _ (round p ch)
      λ p'. ap (λ k. parse_from p' k rest) (add_assoc n i 1) ∙ parse_from-shift p' n (i + 1) rest

-- The outcome that a call on a part leaves for the rest: more input is needed.
abbrev Hungry : ℕ → Parser → Outcome → Type 0
Hungry i p' o = (o ≡ span p' i 0) × (p'.state ≢ State.ended)

after_round-append :
    (f g : Parser → Outcome) (p : Parser) (i n m : ℕ) {p' : Parser} (r : Round) (o : Outcome)
    → ((q : Parser) → IsValid q → Hungry (i + suc n) p' (f q) → g q ≡ o)
    → IsValid p
    → RoundIsValid p r
    → Hungry (i + suc n) p' (after_round f p i (suc n) r)
    → after_round g p i (suc m) r ≡ o
unfolding after_round
after_round-append f g p i n m (advance q) o ih v h e = ih q h.0 e
after_round-append f g p i n m deliver o ih v h e = ground (arith, v h)
after_round-append f g p i n m (finish q) o ih v h e = ground arith
after_round-append f g p i n m (throw _) o ih v h e = ground arith
after_round-append f g p i n m unreachable o ih v h e = ground arith

span_parser : Outcome → Parser → Parser
span_parser (span p off len) q = p
span_parser _ q = q

parse_from-append :
    (p : Parser) (i : ℕ) (xs ys : Bytes) {p' : Parser}
    → IsValid p
    → Hungry (i + length xs) p' (parse_from p i xs)
    → parse_from p i (xs ++ ys) ≡ parse_from p' (i + length xs) ys
unfolding parse_from
parse_from-append p i [] ys {p'} v (e, _) =
    let same : p ≡ p' = unfold span_parser in ap (λ o. span_parser o p) e in
    rw same (ap (λ k. parse_from p' k ys) (omega arith))
parse_from-append p i (ch ∷ xs) ys {p'} v h =
    after_round-append _ _ p i (length xs) (length (xs ++ ys)) (round p ch) _
      (λ q w e.
        parse_from-append q (i + 1) xs ys w (rw (index (length xs)) e)
        ∙ ap (λ k. parse_from p' k ys) (index (length xs)))
      v (round-IsValid p ch) h
  where
    index : (n : ℕ) → i + 1 + n ≡ i + suc n
    index n = omega arith

-- If a call reads all of `xs` without finding data, and the body has not ended, then a call on
-- `xs ++ ys` does what a second call on `ys` does, its offset counted from the start of `xs`.
pub parse-append :
    (p : Parser) (xs ys : Bytes) {p' : Parser}
    → IsValid p
    → parse p xs ≡ span p' (length xs) 0
    → p'.state ≢ State.ended
    → parse p (xs ++ ys) ≡ shift (length xs) (parse p' ys)
unfolding parse
parse-append p xs ys {p'} v e h =
    parse_from-append p 0 xs ys v (rw zero-add (e, h))
    ∙ ap (λ k. parse_from p' k ys) (omega arith)
    ∙ parse_from-shift p' (length xs) 0 ys
