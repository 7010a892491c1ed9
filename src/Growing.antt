-- ===== src/Growing.antt =====
-- memory/GrowingBuffer.{cxx,hxx}: the class GrowingBuffer. A buffer of its list is the bytes that it
-- has got, `data` up to `fill`; `chunk` is the size of each, which the allocator gives. `tail` is
-- the last buffer of the list when the pointer is not nullptr. A pointer that a caller gets and
-- writes to is the bytes that it writes. `none` stands for an assertion that does not hold, or
-- for a pointer that is nullptr.
use mathlib.Core.Option
pub mod Contents
pub mod Writes
pub mod Written
pub mod Reads
pub mod Refine
pub mod Headers
pub mod Reader
use cm4all_beng_proxy.Common.{
  ℕ, zero, suc, ◌+◌, ◌-◌, min, Bool, true, false, ◌&&◌, Option, none, some, List, [], ◌∷◌, ◌++◌,
  Bytes, length, take, drop, ltb, leb, ◌==◌, if◌then◌else◌,
}

pub record GrowingBuffer : Type 0 where
  pub head : List Bytes
  pub has_tail : Bool
  pub position : ℕ

abbrev pub new : GrowingBuffer
new = record { head = []; has_tail = false; position = 0 }

unfoldable pub clear : GrowingBuffer → GrowingBuffer
clear g = record { head = []; has_tail = false; position = 0 }

unfoldable pub last_of : List Bytes → Option Bytes
last_of [] = none
last_of (b ∷ []) = some b
last_of (b ∷ c ∷ bs) = last_of (c ∷ bs)

unfoldable pub tail : GrowingBuffer → Option Bytes
unfolding last_of
tail g = if g.has_tail then last_of g.head else none

-- `AppendBuffer`
unfoldable pub append_buffer : GrowingBuffer → GrowingBuffer
append_buffer g = record g {
  head = if g.has_tail then g.head ++ [] ∷ [] else [] ∷ [];
  has_tail = true;
}

unfoldable pub on_tail : Bytes → List Bytes → List Bytes
on_tail s [] = []
on_tail s (b ∷ []) = (b ++ s) ∷ []
on_tail s (b ∷ c ∷ bs) = b ∷ on_tail s (c ∷ bs)

-- `CommitWrite` of the bytes that have been written at the end of the tail
unfoldable pub commit_write : Bytes → GrowingBuffer → GrowingBuffer
unfolding on_tail
commit_write s g = record g { head = on_tail s g.head }

-- the spans that `ForEachBuffer` passes to its function, in turn
unfoldable pub for_each_buffer : ℕ → List Bytes → List Bytes
for_each_buffer skip [] = []
for_each_buffer skip (b ∷ bs) =
    let later = for_each_buffer (skip - length b) bs in
    let rest = for_each_buffer 0 bs in
    if ltb 0 skip then if leb (length b) skip then later else drop skip b ∷ rest else b ∷ rest

unfoldable pub sum_sizes : List Bytes → ℕ
sum_sizes [] = 0
sum_sizes (b ∷ bs) = length b + sum_sizes bs

unfoldable pub copy_to : List Bytes → Bytes
copy_to [] = []
copy_to (b ∷ bs) = b ++ copy_to bs

unfoldable pub get_size : GrowingBuffer → ℕ
unfolding sum_sizes for_each_buffer
get_size g = sum_sizes (for_each_buffer g.position g.head)

unfoldable pub dup : GrowingBuffer → Bytes
unfolding copy_to for_each_buffer get_size
dup g = if get_size g == 0 then [] else copy_to (for_each_buffer g.position g.head)

unfoldable pub front : ℕ → List Bytes → Bytes
front position [] = []
front position (b ∷ bs) = drop position b

-- The assertion compares the position with the size of the head, not with its `fill`.
unfoldable pub read : ℕ → GrowingBuffer → Option Bytes
read chunk g = elim g.head [
  | [] ↦ some []
  | b ∷ bs ↦ if ltb g.position chunk then some (drop g.position b) else none
]

-- `head.Pop()`, and the tail of a list that is empty then
unfoldable pub popped : List Bytes → Bool → Bool
popped [] has_tail = false
popped (b ∷ bs) has_tail = has_tail

unfoldable pub consume_head : ℕ → ℕ → List Bytes → Bool → Option GrowingBuffer
unfolding popped
consume_head n position [] has_tail = none
consume_head n position (b ∷ bs) has_tail =
    if ltb (length b) (position + n)
    then none
    else if leb (length b) (position + n)
    then some (record { head = bs; has_tail = popped bs has_tail; position = 0 })
    else some (record { head = b ∷ bs; has_tail = has_tail; position = position + n })

unfoldable pub consume : ℕ → GrowingBuffer → Option GrowingBuffer
unfolding consume_head
consume n g = if n == 0 then some g else consume_head n g.position g.head g.has_tail

unfoldable pub skip_loop : ℕ → ℕ → List Bytes → Bool → Option GrowingBuffer
unfolding popped
skip_loop n position [] has_tail =
    if n == 0 then some (record { head = []; has_tail = has_tail; position = position }) else none
skip_loop n position (b ∷ bs) has_tail =
    let rest = skip_loop (n - (length b - position)) 0 bs (popped bs has_tail) in
    if n == 0
    then some (record { head = b ∷ bs; has_tail = has_tail; position = position })
    else if ltb n (length b - position)
    then some (record { head = b ∷ bs; has_tail = has_tail; position = position + n })
    else rest

unfoldable pub skip : ℕ → GrowingBuffer → Option GrowingBuffer
unfolding skip_loop
skip n g = skip_loop n g.position g.head g.has_tail

-- with the result so far
unfoldable pub consume_loop : ℕ → ℕ → ℕ → List Bytes → Bool → GrowingBuffer × ℕ
unfolding popped
consume_loop result n position [] has_tail =
    (record { head = []; has_tail = has_tail; position = position }, result)
consume_loop result n position (b ∷ bs) has_tail =
    let available = length b - position in
    let rest = consume_loop (result + available) (n - available) 0 bs (popped bs has_tail) in
    if n == 0
    then (record { head = b ∷ bs; has_tail = has_tail; position = position }, result)
    else if ltb n available
    then (record { head = b ∷ bs; has_tail = has_tail; position = position + n }, result + n)
    else rest

unfoldable pub consume_bucket_list : ℕ → GrowingBuffer → GrowingBuffer × ℕ
unfolding consume_loop
consume_bucket_list n g = consume_loop 0 n g.position g.head g.has_tail

-- the buckets that `FillBucketList` pushes
unfoldable pub push_buckets : ℕ → List Bytes → List Bytes
push_buckets skip [] = []
push_buckets skip (b ∷ bs) =
    let later = push_buckets (skip - length b) bs in
    let rest = push_buckets 0 bs in
    if leb (length b) skip then later else (if ltb 0 skip then drop skip b else b) ∷ rest

unfoldable pub fill_bucket_list : ℕ → GrowingBuffer → List Bytes
unfolding push_buckets for_each_buffer
fill_bucket_list skip g = push_buckets skip (for_each_buffer g.position g.head)

-- `Prepend`, and the bytes that are written at its result
unfoldable pub prepend : Bytes → GrowingBuffer → Option GrowingBuffer
prepend s g = elim g.head [
  | [] ↦ none
  | b ∷ bs ↦
      if leb (length s) g.position && leb g.position (length b)
      then some (record {
        head = (take (g.position - length s) b ++ s ++ drop g.position b) ∷ bs;
        has_tail = g.has_tail;
        position = g.position - length s;
      })
      else none
]

-- `AppendMoveFrom`: the buffer and the source
unfoldable pub append_move_from :
    GrowingBuffer → GrowingBuffer → Option (GrowingBuffer × GrowingBuffer)
append_move_from src g =
    if src.has_tail
    then if g.has_tail
      then some (
        record g { head = g.head ++ src.head; has_tail = src.has_tail },
        record src { head = []; has_tail = false },
      )
      else none
    else some (g, src)

module _ (chunk : ℕ) where
  -- `BeginWrite` of a size
  unfoldable pub begin_write : ℕ → GrowingBuffer → Option GrowingBuffer
  unfolding append_buffer tail
  begin_write size g =
      if ltb chunk size
      then none
      else some (elim (tail g) [
        | none ↦ append_buffer g
        | some b ↦ if ltb chunk (length b + size) then append_buffer g else g
      ])

  -- `BeginWrite` of any size, and the size of the range that it returns
  unfoldable pub begin_write_any : GrowingBuffer → GrowingBuffer
  unfolding append_buffer tail
  begin_write_any g = elim (tail g) [
    | none ↦ append_buffer g
    | some b ↦ if length b == chunk then append_buffer g else g
  ]

  unfoldable pub room : GrowingBuffer → ℕ
  unfolding tail
  room g = elim (tail g) [ none ↦ 0 | some b ↦ chunk - length b ]

  -- `Write` of a length, and the bytes that are written at its result
  unfoldable pub write_length : Bytes → GrowingBuffer → Option GrowingBuffer
  unfolding begin_write commit_write
  write_length s g = Option.map (commit_write s) (begin_write (length s) g)

  unfoldable pub write_some : Bytes → GrowingBuffer → GrowingBuffer × ℕ
  unfolding begin_write_any room commit_write
  write_some src g =
      let g' = begin_write_any g in
      let nbytes = min (room g') (length src) in (commit_write (take nbytes src) g', nbytes)

  -- the loop of `Write`
  unfoldable pub write_loop : ℕ → Bytes → GrowingBuffer → Option GrowingBuffer
  unfolding write_some
  write_loop fuel [] g = some g
  write_loop zero (c ∷ src) g = none
  write_loop (suc fuel) (c ∷ src) g =
      let (g', nbytes) = write_some (c ∷ src) g in write_loop fuel (drop nbytes (c ∷ src)) g'

  unfoldable pub write : Bytes → GrowingBuffer → Option GrowingBuffer
  unfolding write_loop
  write src g = write_loop (length src) src g

  -- `VFmt` of the text that the library makes
  unfoldable pub v_fmt : Bytes → GrowingBuffer → Option GrowingBuffer
  unfolding begin_write_any begin_write room commit_write
  v_fmt text g =
      let g' = begin_write_any g in
      Option.map (commit_write text)
        (if ltb (room g') (length text) then begin_write (length text) g' else some g')

  -- `Reserve`, with the bytes that happen to be in the memory
  unfoldable pub reserve : Bytes → GrowingBuffer → Option GrowingBuffer
  unfolding begin_write commit_write
  reserve space g =
      Option.map (λ g'. record (commit_write space g') { position = length space })
        (begin_write (length space) g)
