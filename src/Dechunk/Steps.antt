-- ===== src/Dechunk/Steps.antt =====
-- What `ParseInput` does with one chunk of a body, and with its last line.
use native.Mathlib.Nat.{zero-add}
use cm4all_beng_proxy.Common.{
  ℕ, zero, suc, ◌+◌, ◌<◌, ◌≡◌, refl, ap, ◌∙◌, false, Option, none, some, List, [], ◌∷◌, ◌++◌, Bytes,
  length, drop, drop-add, codes, if◌then◌else◌, arith, drop-append,
}
use cm4all_beng_proxy.Chunk.{State, Parser, parse, consume, has_ended}
use cm4all_beng_proxy.Chunk.Frame.{
  Piece, IsPiece, line_size, write_piece, within, newline, IsReady, write_body, piece_span,
  last_span, ended,
}
use cm4all_beng_proxy.Dechunk.Vector.{total}
use cm4all_beng_proxy.Dechunk.{
  ParsedChunk, Dechunk, max_chunks, back?, set_back, emplace_back, header_at, data_at, add_header,
  add_data, Parsed, returned, take_data, take_header, saw_span, after_data, after_header,
  input_round, input_loop,
}

-- The entries for that body.
abbrev pub entries : ℕ → List Piece → List ParsedChunk
entries sep [] = record { header = sep + 5; payload = 0 } ∷ []
entries sep (c ∷ cs) =
    record { header = sep + line_size c; payload = length c.payload } ∷ entries 2 cs

-- The next header gets an entry of its own: the last entry, if there is one, has data.
abbrev pub IsClosed : Option ParsedChunk → Type 0
IsClosed none = Unit
IsClosed (some c) = 0 < c.payload

module _ {ℓ} {A : Type ℓ} where
  back?-append : (xs : List A) (v : A) → back? (xs ++ v ∷ []) ≡ some v
  unfolding back?
  back?-append [] v = refl
  back?-append (x ∷ []) v = refl
  back?-append (x ∷ y ∷ xs) v = back?-append (y ∷ xs) v

  set_back-append : (xs : List A) (v w : A) → set_back (xs ++ v ∷ []) w ≡ xs ++ w ∷ []
  unfolding set_back
  set_back-append [] v w = refl
  set_back-append (x ∷ []) v w = refl
  set_back-append (x ∷ y ∷ xs) v w = ap (◌∷◌ x) (set_back-append (y ∷ xs) v w)

  drop_after : (xs ys : List A) (n : ℕ) → drop (length xs + n) (xs ++ ys) ≡ drop n ys
  drop_after [] ys n = ap (λ k. drop k ys) (omega arith)
  drop_after (x ∷ xs) ys n =
      ap (λ k. drop k (x ∷ (xs ++ ys))) (suc_add (length xs) n) ∙ drop_after xs ys n
    where
      suc_add : (a b : ℕ) → suc a + b ≡ suc (a + b)
      suc_add a b = omega arith

header_at_closed :
    (cs : List ParsedChunk) (n : ℕ) (o : Option ParsedChunk)
    → IsClosed o
    → length cs < max_chunks
    → header_at cs n o ≡ some (cs ++ record { header = n; payload = 0 } ∷ [])
unfolding header_at emplace_back
header_at_closed cs n none h r = ground arith
header_at_closed cs n (some c) h r = ground arith

add_header_closed :
    (cs : List ParsedChunk) (n : ℕ)
    → IsClosed (back? cs)
    → length cs < max_chunks
    → add_header cs n ≡ some (cs ++ record { header = n; payload = 0 } ∷ [])
unfolding add_header
add_header_closed cs n h r = header_at_closed cs n (back? cs) h r

add_data_opened :
    (cs : List ParsedChunk) (n m : ℕ)
    → add_data (cs ++ record { header = n; payload = 0 } ∷ []) m
      ≡ some (cs ++ record { header = n; payload = m } ∷ [])
unfolding add_data data_at
add_data_opened cs n m = rw (back?-append cs _) (simp (set_back-append, zero-add))

pub drop_piece :
    (sep : Bytes) (c : Piece) (rest : Bytes)
    → drop (length sep + line_size c + length c.payload) (sep ++ write_piece c rest) ≡ rest
drop_piece sep c rest =
    ap (λ k. drop k (sep ++ write_piece c rest)) regroup
    ∙ drop_after sep _ _
    ∙ drop_after c.digits _ _
    ∙ drop_after c.extension _ _
    ∙ drop-append c.payload rest
  where
    regroup :
        length sep + line_size c + length c.payload
        ≡ length sep + suc (length c.digits + (length c.extension + suc (length c.payload)))
    regroup = omega arith

pub drop_line :
    (sep : Bytes) (c : Piece) (rest : Bytes)
    → drop (length sep + line_size c) (sep ++ write_piece c rest) ≡ c.payload ++ rest
drop_line sep c rest =
    ap (λ k. drop k (sep ++ write_piece c rest)) regroup
    ∙ drop_after sep _ _
    ∙ drop_after c.digits _ _
    ∙ drop_after c.extension _ 1
  where
    regroup :
        length sep + line_size c ≡ length sep + suc (length c.digits + (length c.extension + 1))
    regroup = omega arith

pub drop_body :
    (sep : Bytes) (cs : List Piece) (rest : Bytes)
    → drop (total (entries (length sep) cs)) (write_body sep cs rest) ≡ rest
drop_body sep [] rest = ap (λ k. drop k (write_body sep [] rest)) regroup ∙ drop_after sep _ 5
  where
    regroup : total (entries (length sep) []) ≡ length sep + 5
    regroup = omega arith
drop_body sep (c ∷ cs) rest =
    drop-add _ (total (entries 2 cs)) (write_body sep (c ∷ cs) rest)
    ∙ ap (drop (total (entries 2 cs))) (drop_piece sep c (write_body newline cs rest))
    ∙ drop_body newline cs rest

pub input_loop_step :
    (fuel : ℕ) (d : Dechunk) (src : Bytes)
    → 0 < length src
    → input_loop (suc fuel) d src ≡ input_round (input_loop fuel) d src (parse d.parser src)
unfolding input_loop
input_loop_step fuel d [] h = absurd (omega arith)
input_loop_step fuel d (ch ∷ src) h = refl

-- The place in the body that the object has reached: all headers are recorded.
pub record IsBetween (d : Dechunk) (sep : Bytes) : Type 0 where
  pub ready : IsReady d.parser sep
  pub settled : d.pending_header ≡ 0
  pub closed : IsClosed (back? d.chunks)

-- The object after `n` bytes of header and `m` bytes of data have been recorded in a new entry.
abbrev pub recorded : Dechunk → Parser → ℕ → ℕ → Dechunk
recorded d p n m = record d {
  parser = p;
  parsed_input = d.parsed_input + n + m;
  pending_header = 0;
  chunks = d.chunks ++ record { header = n; payload = m } ∷ [];
  end_seen = if has_ended p then d.end_seen + 1 else d.end_seen;
}

abbrev pub behind_data : Parser
behind_data = record { state = State.after_data; remaining_chunk = 0 }

header_step :
    (d : Dechunk) (sep : Bytes) (p : Parser) (n : ℕ)
    → IsBetween d sep
    → length d.chunks < max_chunks
    → 0 < n
    → take_header (saw_span d p n) ≡ some (recorded d p n 0)
unfolding take_header saw_span
header_step d sep p n b room pos =
    ground (arith, b.settled, add_header_closed d.chunks n b.closed room)

data_step :
    (d : Dechunk) (n m : ℕ)
    → 0 < m
    → take_data (recorded d (within m) n 0) m ≡ some (recorded d behind_data n m)
unfolding take_data consume has_ended
data_step d n zero pos = absurd (omega arith)
data_step d n (suc m) pos = ground (arith, add_data_opened d.chunks n (suc m))

pub piece_round :
    (next : Dechunk → Bytes → Parsed) (d : Dechunk) (sep : Bytes) (c : Piece) (rest : Bytes)
    → IsBetween d sep
    → IsPiece c
    → length d.chunks < max_chunks
    → input_round next d (sep ++ write_piece c rest) (parse d.parser (sep ++ write_piece c rest))
      ≡ next (recorded d behind_data (length sep + line_size c) (length c.payload)) rest
unfolding input_round after_header after_data has_ended
piece_round next d sep c rest b piece room = rw (piece_span d.parser sep c rest b.ready piece) (
    rw
      (
        drop_piece,
        header_step d sep (within (length c.payload)) (length sep + line_size c) b room
            (omega arith),
      )
      (rw (data_step d (length sep + line_size c) (length c.payload) piece.2)))

pub last_round :
    (next : Dechunk → Bytes → Parsed) (d : Dechunk) (sep rest : Bytes)
    → IsBetween d sep
    → length d.chunks < max_chunks
    → input_round next d
        (sep ++ (codes "0\r\n\r\n" ++ rest))
        (parse d.parser (sep ++ (codes "0\r\n\r\n" ++ rest)))
      ≡ returned (recorded d ended (length sep + 5) 0) false
unfolding input_round after_header after_data has_ended take_data
last_round next d sep rest b room =
    rw (last_span d.parser sep rest b.ready)
      (rw (header_step d sep ended (length sep + 5) b room (omega arith)))

-- The object at the end of a body with the entries `es`.
abbrev pub finished : Dechunk → List ParsedChunk → Dechunk
finished d es = record {
  parser = ended;
  parsed_input = d.parsed_input + total es;
  pending_header = 0;
  chunks = d.chunks ++ es;
  end_seen = d.end_seen + 1;
}

pub recorded-IsBetween :
    (d : Dechunk) (n m : ℕ) → 0 < m → IsBetween (recorded d behind_data n m) newline
recorded-IsBetween d n m pos = record {
  ready = (refl, refl, refl);
  settled = refl;
  closed = rw (back?-append d.chunks (record { header = n; payload = m })) pos;
}
