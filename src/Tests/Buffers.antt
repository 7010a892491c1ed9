-- ===== src/Tests/Buffers.antt =====
-- GrowingBuffer and its reader, with buffers of four bytes.
use mathlib.Core.Option
use cm4all_beng_proxy.Common.{
  ◌+◌, ◌≡◌, refl, true, some, List, [], ◌∷◌, ◌++◌, Bytes, length, drop, arith, All, inl, ◌≤◌, codes,
}
use cm4all_beng_proxy.Growing.{
  GrowingBuffer, new, write, begin_write_any, write_some, write_loop, room, tail, append_buffer,
  commit_write, on_tail, dup, get_size, sum_sizes, for_each_buffer, read, fill_bucket_list, copy_to,
}
use cm4all_beng_proxy.Growing.Contents.{IsValid, behind, fill_bucket_list-dup}
use cm4all_beng_proxy.Growing.Refine.{
  Operation, to_write, to_write_length, to_fmt, to_skip, to_consume_buckets, run, run_queue,
  run-run_queue,
}
use cm4all_beng_proxy.Growing.Reader.{Reader, make_reader, available, fill_buckets}
use cm4all_beng_proxy.Growing.Reader.Laws.{left, Takes, make_reader-Takes}

abbrev calls : List Operation
calls =
    to_write (codes "abcdef")
    ∷ to_write_length (codes "gh")
    ∷ to_skip 3
    ∷ to_fmt (codes "ijk")
    ∷ to_consume_buckets 2
    ∷ []

run-run_queue_example : Option.map dup (run 4 calls new) ≡ run_queue 4 calls []
run-run_queue_example = run-run_queue 4 (omega arith) calls

rest_of_calls : run_queue 4 calls [] ≡ some (codes "fghijk")
rest_of_calls = refl

abbrev sample : GrowingBuffer
sample = record { head = codes "abcd" ∷ codes "ef" ∷ []; has_tail = true; position = 1 }

sample-IsValid : IsValid 4 sample
sample-IsValid = (refl, (omega arith, (omega arith, tt)), omega arith)

written : write 4 (codes "abcdef") new ≡ some (record sample { position = 0 })
unfolding write write_loop write_some begin_write_any room tail append_buffer commit_write on_tail
written = refl

fill_bucket_list-dup_example :
    (dup sample ≡ drop 1 (copy_to sample.head))
    × (get_size sample ≡ length (dup sample))
    × (copy_to (fill_bucket_list 4 sample) ≡ drop 4 (dup sample))
    × All (λ b. 0 + 1 ≤ length b) (fill_bucket_list 4 sample)
    × (first : Bytes) × (read 4 sample ≡ some first)
    × (dup sample ≡ first ++ copy_to (behind sample.head))
fill_bucket_list-dup_example = fill_bucket_list-dup 4 4 sample sample-IsValid (omega arith)

make_reader-Takes_example :
    (r : Reader) × (make_reader sample ≡ some r)
    × (left r ≡ dup sample)
    × (available r ≡ length (dup sample))
    × (copy_to (fill_buckets r) ≡ dup sample)
    × Takes 4 2 r
make_reader-Takes_example =
    make_reader-Takes 4 4 2 sample sample-IsValid (omega arith, inl (omega arith))
      (unfold dup get_size for_each_buffer sum_sizes copy_to in omega arith)

-- The constructor keeps the position of the buffer that it drops.
lost_bytes :
    Option.map left (
      make_reader
        (record { head = codes "????" ∷ codes "body" ∷ []; has_tail = true; position = 4 }))
    ≡ some []
unfolding make_reader copy_to
lost_bytes = refl
