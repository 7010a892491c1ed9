-- ===== src/Growing/Reader/Laws.antt =====
-- A GrowingBufferReader gives the bytes of the buffer that it was made from.
use mathlib.Core.Option
use cm4all_beng_proxy.Common.{
  ℕ, zero, suc, ◌+◌, ◌-◌, min, ◌≤◌, ◌<◌, ◌≡◌, refl, sym, ap, ◌∙◌, Bool, true, false, some, List, [],
  ◌∷◌, Bytes, length, drop, ltb, leb, ◌==◌, arith, drop-append_ge, Bool-cases, inl, inr, ◌⊎◌,
}
use cm4all_beng_proxy.Growing.{GrowingBuffer, copy_to, dup, popped, consume_loop, skip_loop}
use cm4all_beng_proxy.Growing.Contents.{IsValid, sum_sizes_lem, dup_lem, copy_to-for_each_buffer}
use cm4all_beng_proxy.Growing.Reads.{consume_loop-HasTaken, skip_loop-HasTaken}
use cm4all_beng_proxy.Growing.Reader.{
  Reader, make_reader, available, fill_buckets, consume_buffers, consume_buckets, skip_buffers,
  skip_read,
}

abbrev pub left : Reader → Bytes
left r = drop r.position (copy_to r.buffer)

-- the reader of a buffer, whatever its tail is
abbrev reader_of : GrowingBuffer → Reader
reader_of g = record { buffer = g.head; position = g.position }

-- The loops of the reader are those of the buffer.
consume_buffers-consume_loop :
    (r n p : ℕ) (bs : List Bytes) (t : Bool)
    → consume_buffers r n p bs
      ≡ (reader_of (consume_loop r n p bs t).0, (consume_loop r n p bs t).1)
unfolding consume_buffers consume_loop
consume_buffers-consume_loop r n p [] t = refl
consume_buffers-consume_loop r n p (b ∷ bs) t = elim (Bool-cases (n == 0)) [
  | inl nothing ↦ rw nothing refl
  | inr some_bytes ↦ elim (Bool-cases (ltb n (length b - p))) [
    | inl inside ↦ rw (some_bytes, inside) refl
    | inr past ↦
        rw (some_bytes, past)
          (consume_buffers-consume_loop (r + (length b - p)) (n - (length b - p)) 0 bs
            (popped bs t))
  ]
]

skip_buffers-skip_loop :
    (n p : ℕ) (bs : List Bytes) (t : Bool)
    → skip_buffers n p bs ≡ Option.map reader_of (skip_loop n p bs t)
unfolding skip_buffers skip_loop
skip_buffers-skip_loop n p [] t = elim (Bool-cases (n == 0)) [
  | inl nothing ↦ rw nothing refl
  | inr more ↦ rw more refl
]
skip_buffers-skip_loop n p (b ∷ bs) t = elim (Bool-cases (n == 0)) [
  | inl nothing ↦ rw nothing refl
  | inr some_bytes ↦ elim (Bool-cases (ltb n (length b - p))) [
    | inl inside ↦ rw (some_bytes, inside) refl
    | inr past ↦
        rw (some_bytes, past) (skip_buffers-skip_loop (n - (length b - p)) 0 bs (popped bs t))
  ]
]

-- The position is in the first buffer. It has no meaning without one.
abbrev IsReader : ℕ → Reader → Type 0
IsReader chunk r = elim r.buffer [
  | [] ↦ Unit
  | b ∷ bs ↦ IsValid chunk (record { head = b ∷ bs; has_tail = true; position = r.position })
]

-- The first buffer is not empty, and not all of it is in front of the position, or it is the only
-- one.
abbrev pub IsUnread : GrowingBuffer → Type 0
IsUnread g = elim g.head [
  | [] ↦ Unit
  | b ∷ bs ↦ (0 < length b) × ((g.position < length b) ⊎ (bs ≡ []))
]

no_bytes : (p n : ℕ) → drop p (copy_to []) ≡ drop n (drop p (copy_to []))
unfolding copy_to
no_bytes zero zero = refl
no_bytes zero (suc n) = refl
no_bytes (suc p) zero = refl
no_bytes (suc p) (suc n) = refl

length-no_bytes : (p : ℕ) → length (drop p (copy_to [])) ≡ 0
unfolding copy_to
length-no_bytes zero = refl
length-no_bytes (suc p) = refl

-- What is left after the calls that take bytes.
abbrev pub Takes : ℕ → ℕ → Reader → Type 0
Takes n k r =
    (let (r', taken) = consume_buckets n r in
      (left r' ≡ drop n (left r)) × (taken ≡ min n (length (left r))))
    × ((r' : Reader) × (skip_read k r ≡ some r') × (left r' ≡ drop k (left r)))

reader-Takes :
    (chunk n k p : ℕ) (bs : List Bytes)
    → IsReader chunk (record { buffer = bs; position = p })
    → k ≤ length (drop p (copy_to bs))
    → Takes n k (record { buffer = bs; position = p })
unfolding consume_buckets skip_read
reader-Takes chunk n k p [] valid le =
    let nothing : (k == 0) ≡ true = ground (arith, length-no_bytes p) in
    (
      (no_bytes p n, omega (arith, length-no_bytes p)),
      rw nothing (record { buffer = []; position = p }, refl, no_bytes p k),
    )
reader-Takes chunk n k p (b ∷ bs) valid le =
    let taken = consume_loop-HasTaken chunk 0 n p (b ∷ bs) true valid in
    let (g', e, (valid', same)) = skip_loop-HasTaken chunk k p (b ∷ bs) true valid le in
    (
      rw (consume_buffers-consume_loop 0 n p (b ∷ bs) true) (taken.0.1, omega (arith, taken.1)),
      (reader_of g', skip_buffers-skip_loop k p (b ∷ bs) true ∙ ap (Option.map reader_of) e, same),
    )

none_left : (n : ℕ) → drop n (copy_to []) ≡ []
unfolding copy_to
none_left zero = refl
none_left (suc n) = refl

nothing_behind :
    (p : ℕ) (b : Bytes) → length b ≤ p → drop p (copy_to []) ≡ drop p (copy_to (b ∷ []))
unfolding copy_to
nothing_behind p b le =
    none_left p ∙ sym (none_left (p - length b)) ∙ sym (drop-append_ge p b [] le)

make_reader-IsReader :
    (chunk p : ℕ) (bs : List Bytes) (t : Bool)
    → IsValid chunk (record { head = bs; has_tail = t; position = p })
    → IsUnread (record { head = bs; has_tail = t; position = p })
    → (r : Reader) × (make_reader (record { head = bs; has_tail = t; position = p }) ≡ some r)
      × IsReader chunk r
      × (left r ≡ drop p (copy_to bs))
unfolding make_reader
make_reader-IsReader chunk p [] t valid u = (record { buffer = []; position = p }, refl, tt, refl)
make_reader-IsReader chunk p (b ∷ bs) t (is, small, fits) (has, inl inside) =
    let full : ltb 0 (length b) ≡ true = ground arith in
    let within : leb (length b) p ≡ false = ground arith in
    rw (full, within) (record { buffer = b ∷ bs; position = p }, refl, (refl, small, fits), refl)
make_reader-IsReader chunk p (b ∷ c ∷ bs) t (is, small, fits) (has, inr alone) =
    absurd (ground arith)
make_reader-IsReader chunk p (b ∷ []) t (is, small, fits) (has, inr alone) =
    let full : ltb 0 (length b) ≡ true = ground arith in
    elim (Bool-cases (leb (length b) p)) [
      | inl whole ↦
          rw (full, whole)
            (record { buffer = []; position = p }, refl, tt, nothing_behind p b (ground arith))
      | inr part ↦
          rw (full, part)
            (record { buffer = b ∷ []; position = p }, refl, (refl, small, fits), refl)
    ]

-- The constructor gives a reader of a buffer that has all of its bytes, Available tells how many, and
-- its buckets make them up; ConsumeBucketList then takes as many of them as it is asked for, from the
-- front, and tells how many it has taken, and Skip takes as many as it is told to. The buffer is valid,
-- its first part is not empty, the position is not at the end of that part while there is a second, and
-- there are as many bytes as are to be skipped.
pub make_reader-Takes :
    (chunk n k : ℕ) (g : GrowingBuffer)
    → IsValid chunk g
    → IsUnread g
    → k ≤ length (dup g)
    → (r : Reader) × (make_reader g ≡ some r)
      × (left r ≡ dup g)
      × (available r ≡ length (dup g))
      × (copy_to (fill_buckets r) ≡ dup g)
      × Takes n k r
unfolding available fill_buckets
make_reader-Takes chunk n k g valid unread le =
    let (r, made, good, same) =
      make_reader-IsReader chunk g.position g.head g.has_tail valid unread in
    let all : left r ≡ dup g = same ∙ sym (dup_lem g) in
    (
      r,
      made,
      all,
      sum_sizes_lem (fill_buckets r)
          ∙ ap length (copy_to-for_each_buffer r.position r.buffer ∙ all),
      copy_to-for_each_buffer r.position r.buffer ∙ all,
      reader-Takes chunk n k r.position r.buffer good (omega (arith, ap length all)),
    )
