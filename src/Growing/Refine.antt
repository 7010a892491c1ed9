-- ===== src/Growing/Refine.antt =====
-- A GrowingBuffer is a queue of bytes.
use mathlib.Core.Option
use cm4all_beng_proxy.Common.{
  ℕ, ◌<◌, ◌≡◌, refl, sym, ap, ◌∙◌, true, Option, none, some, List, [], ◌∷◌, ◌++◌, Bytes, length,
  drop, ltb, if◌then◌else◌, arith, Bool-cases, inl, inr,
}
use cm4all_beng_proxy.Growing.{
  GrowingBuffer, new, clear, dup, copy_to, begin_write, write_length, write, v_fmt, skip,
  consume_bucket_list,
}
use cm4all_beng_proxy.Growing.Contents.{contents, IsValid, dup_lem}
use cm4all_beng_proxy.Growing.Writes.{write_length-HasWritten}
use cm4all_beng_proxy.Growing.Written.{write_loop-HasWritten, v_fmt-HasWritten, v_fmt-none}
use cm4all_beng_proxy.Growing.Reads.{skip_loop-HasTaken, skip_loop-none, consume_loop-HasTaken}

-- What a client calls: the Write of a span and that of a length, Fmt with its text, Skip,
-- ConsumeBucketList and Clear.
pub data Operation : Type 0 where
  to_write to_write_length to_fmt : Bytes → Operation
  to_skip to_consume_buckets : ℕ → Operation
  to_clear : Operation

unfoldable pub apply : ℕ → Operation → GrowingBuffer → Option GrowingBuffer
apply chunk (to_write s) g = write chunk s g
apply chunk (to_write_length s) g = write_length chunk s g
apply chunk (to_fmt s) g = v_fmt chunk s g
apply chunk (to_skip n) g = skip n g
apply chunk (to_consume_buckets n) g = some (consume_bucket_list n g).0
apply chunk to_clear g = some (clear g)

unfoldable pub run : ℕ → List Operation → GrowingBuffer → Option GrowingBuffer
unfolding apply
run chunk [] g = some g
run chunk (op ∷ ops) g = elim (apply chunk op g) [ none ↦ none | some g' ↦ run chunk ops g' ]

-- The same on a queue, which is the list of its bytes. An assertion does not hold where more than a
-- buffer can hold is written at once, or where more is skipped than there is.
abbrev pub apply_queue : ℕ → Operation → Bytes → Option Bytes
apply_queue chunk (to_write s) q = some (q ++ s)
apply_queue chunk (to_write_length s) q = if ltb chunk (length s) then none else some (q ++ s)
apply_queue chunk (to_fmt s) q = if ltb chunk (length s) then none else some (q ++ s)
apply_queue chunk (to_skip n) q = if ltb (length q) n then none else some (drop n q)
apply_queue chunk (to_consume_buckets n) q = some (drop n q)
apply_queue chunk to_clear q = some []

abbrev pub run_queue : ℕ → List Operation → Bytes → Option Bytes
run_queue chunk [] q = some q
run_queue chunk (op ∷ ops) q = elim (apply_queue chunk op q) [
  | none ↦ none
  | some q' ↦ run_queue chunk ops q'
]

-- The outcome of the buffer is that of the queue.
abbrev pub Implements : ℕ → Option GrowingBuffer → Option Bytes → Type 0
Implements chunk none none = Unit
Implements chunk none (some q) = ⊥
Implements chunk (some g) none = ⊥
Implements chunk (some g) (some q) = IsValid chunk g × (contents g ≡ q)

module _ (chunk : ℕ) (pos : 0 < chunk) where
  made :
      (o : Option GrowingBuffer) (q : Bytes) (g' : GrowingBuffer)
      → o ≡ some g'
      → IsValid chunk g'
      → contents g' ≡ q
      → Implements chunk o (some q)
  made o q g' e valid same = rw e (valid, same)

  write_length-none :
      (s : Bytes) (g : GrowingBuffer) → ltb chunk (length s) ≡ true → write_length chunk s g ≡ none
  unfolding write_length begin_write
  write_length-none s g e = rw e refl

  apply-Implements :
      (op : Operation) (g : GrowingBuffer)
      → IsValid chunk g
      → Implements chunk (apply chunk op g) (apply_queue chunk op (contents g))
  unfolding apply write skip consume_bucket_list clear copy_to
  apply-Implements (to_write s) g valid =
      let (g', e, (valid', same)) =
        write_loop-HasWritten chunk (length s) s g pos (omega arith) valid in
      made _ _ g' e valid' same
  apply-Implements (to_write_length s) g valid = elim (Bool-cases (ltb chunk (length s))) [
    | inl long ↦ rw (long, write_length-none s g long) tt
    | inr fits ↦
        let (g', e, (valid', same)) = write_length-HasWritten chunk s g (ground arith) valid in
        rw fits (made _ _ g' e valid' same)
  ]
  apply-Implements (to_fmt s) g valid = elim (Bool-cases (ltb chunk (length s))) [
    | inl long ↦ rw (long, v_fmt-none chunk s g pos long valid) tt
    | inr fits ↦
        let (g', e, (valid', same)) = v_fmt-HasWritten chunk s g pos (ground arith) valid in
        rw fits (made _ _ g' e valid' same)
  ]
  apply-Implements (to_skip n) g valid = elim (Bool-cases (ltb (length (contents g)) n)) [
    | inl more ↦ rw (more, skip_loop-none n g.position g.head g.has_tail valid.2 (ground arith)) tt
    | inr enough ↦
        let (g', e, (valid', same)) =
          skip_loop-HasTaken chunk n g.position g.head g.has_tail valid (ground arith) in
        rw enough (made _ _ g' e valid' same)
  ]
  apply-Implements (to_consume_buckets n) g valid =
      (consume_loop-HasTaken chunk 0 n g.position g.head g.has_tail valid).0
  apply-Implements to_clear g valid = ((refl, tt, refl), refl)

  chain :
      (ops : List Operation) (o : Option GrowingBuffer) (p : Option Bytes)
      → Implements chunk o p
      → ((g : GrowingBuffer)
          → IsValid chunk g
          → Implements chunk (run chunk ops g) (run_queue chunk ops (contents g)))
      → Implements chunk
          (elim o [ none ↦ none | some g' ↦ run chunk ops g' ])
          (elim p [ none ↦ none | some q' ↦ run_queue chunk ops q' ])
  chain ops none none i h = tt
  chain ops none (some q) i h = absurd i
  chain ops (some g) none i h = absurd i
  chain ops (some g) (some q) (valid, same) h = rw (sym same) (h g valid)

  run-Implements :
      (ops : List Operation) (g : GrowingBuffer)
      → IsValid chunk g
      → Implements chunk (run chunk ops g) (run_queue chunk ops (contents g))
  unfolding run
  run-Implements [] g valid = (valid, refl)
  run-Implements (op ∷ ops) g valid =
      chain ops (apply chunk op g) (apply_queue chunk op (contents g)) (apply-Implements op g valid)
        (run-Implements ops)

  seen : (o : Option GrowingBuffer) (p : Option Bytes) → Implements chunk o p → Option.map dup o ≡ p
  seen none none i = refl
  seen none (some q) i = absurd i
  seen (some g) none i = absurd i
  seen (some g) (some q) (valid, same) = ap some (dup_lem g ∙ same)

  -- After any sequence of the calls Write, Write of a length, Fmt, Skip, ConsumeBucketList and Clear on a
  -- new buffer, what Dup copies is what a queue of bytes holds after the same calls, and an assertion of the buffer fails exactly where the queue has no
  -- answer. The buffers that the allocator gives have room for a byte at least.
  pub run-run_queue :
      (ops : List Operation) → Option.map dup (run chunk ops new) ≡ run_queue chunk ops []
  unfolding copy_to
  run-run_queue ops = seen _ _ (run-Implements ops new (refl, tt, refl))
