-- ===== src/Growing/Reader.antt =====
-- memory/GrowingBuffer.cxx: the class GrowingBufferReader.
pub mod Laws
use mathlib.Core.Option
use cm4all_beng_proxy.Common.{
  ℕ, ◌+◌, ◌-◌, ◌≤◌, Bool, true, false, Option, none, some, List, [], ◌∷◌, Bytes, length, drop, ltb,
  leb, ◌==◌, if◌then◌else◌,
}
use cm4all_beng_proxy.Growing.{GrowingBuffer, front, for_each_buffer, sum_sizes}

pub record Reader : Type 0 where
  pub buffer : List Bytes
  pub position : ℕ

-- the constructor, with its assertion that the first buffer is not empty
unfoldable pub make_reader : GrowingBuffer → Option Reader
make_reader g = elim g.head [
  | [] ↦ some (record { buffer = []; position = g.position })
  | b ∷ bs ↦
      if ltb 0 (length b)
      then some (record {
        buffer = if leb (length b) g.position then bs else b ∷ bs;
        position = g.position;
      })
      else none
]

unfoldable pub is_eof : Reader → Bool
is_eof r = elim r.buffer [ [] ↦ true | b ∷ bs ↦ r.position == length b ]

unfoldable pub available : Reader → ℕ
unfolding sum_sizes for_each_buffer
available r = sum_sizes (for_each_buffer r.position r.buffer)

unfoldable pub read_front : Reader → Bytes
unfolding front
read_front r = front r.position r.buffer

unfoldable pub consume_first : ℕ → ℕ → List Bytes → Option Reader
consume_first n position [] = none
consume_first n position (b ∷ bs) =
    if n == 0
    then some (record { buffer = b ∷ bs; position = position })
    else if ltb (length b) (position + n)
    then none
    else if leb (length b) (position + n)
    then some (record { buffer = bs; position = 0 })
    else some (record { buffer = b ∷ bs; position = position + n })

unfoldable pub consume_read : ℕ → Reader → Option Reader
unfolding consume_first
consume_read n r = consume_first n r.position r.buffer

unfoldable pub skip_buffers : ℕ → ℕ → List Bytes → Option Reader
skip_buffers n position [] =
    if n == 0 then some (record { buffer = []; position = position }) else none
skip_buffers n position (b ∷ bs) =
    let rest = skip_buffers (n - (length b - position)) 0 bs in
    if n == 0
    then some (record { buffer = b ∷ bs; position = position })
    else if ltb n (length b - position)
    then some (record { buffer = b ∷ bs; position = position + n })
    else rest

unfoldable pub skip_read : ℕ → Reader → Option Reader
unfolding skip_buffers
skip_read n r = skip_buffers n r.position r.buffer

-- with the result so far
unfoldable pub consume_buffers : ℕ → ℕ → ℕ → List Bytes → Reader × ℕ
consume_buffers result n position [] = (record { buffer = []; position = position }, result)
consume_buffers result n position (b ∷ bs) =
    let left = length b - position in
    let rest = consume_buffers (result + left) (n - left) 0 bs in
    if n == 0
    then (record { buffer = b ∷ bs; position = position }, result)
    else if ltb n left
    then (record { buffer = b ∷ bs; position = position + n }, result + n)
    else rest

unfoldable pub consume_buckets : ℕ → Reader → Reader × ℕ
unfolding consume_buffers
consume_buckets n r = consume_buffers 0 n r.position r.buffer

unfoldable pub fill_buckets : Reader → List Bytes
unfolding for_each_buffer
fill_buckets r = for_each_buffer r.position r.buffer
