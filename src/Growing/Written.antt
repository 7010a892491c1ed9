-- ===== src/Growing/Written.antt =====
-- Write, VFmt and their parts: all bytes are stored, in order.
use mathlib.Core.Option
use cm4all_beng_proxy.Common.{
  ℕ, zero, suc, ◌-◌, min, ◌≤◌, ◌<◌, ◌≡◌, refl, sym, ap, ◌∙◌, true, none, some, [], ◌∷◌, ◌++◌, Bytes,
  length, take, drop, ltb, arith, append_assoc, append-nil, length-drop, length-take,
  take-append-drop, Bool-cases, inl, inr,
}
use cm4all_beng_proxy.Growing.{
  GrowingBuffer, tail, commit_write, begin_write, begin_write_any, room, write_some, write_loop,
  v_fmt,
}
use cm4all_beng_proxy.Growing.Contents.{contents, IsValid}
use cm4all_beng_proxy.Growing.Writes.{
  begin_write_any-IsReady, begin_write-IsReady, HasWritten, commit_write-HasWritten,
}

room_lem :
    (chunk : ℕ) (g : GrowingBuffer) (b : Bytes) → tail g ≡ some b → room chunk g ≡ chunk - length b
unfolding room
room_lem chunk g b e = rw (room, e) refl

-- one round of Write takes a byte at least
write_some-HasWritten :
    (chunk : ℕ) (c : ℕ) (src : Bytes) (g : GrowingBuffer)
    → 0 < chunk
    → IsValid chunk g
    → let (g', n) = write_some chunk (c ∷ src) g in
      HasWritten chunk (take n (c ∷ src)) g g' × (0 < n)
unfolding write_some
write_some-HasWritten chunk c src g pos valid =
    let (valid', same, b, last, le) = begin_write_any-IsReady chunk g pos valid in
    let n = min (room chunk (begin_write_any chunk g)) (length (c ∷ src)) in
    let is = room_lem chunk (begin_write_any chunk g) b last in
    (
      commit_write-HasWritten chunk (take n (c ∷ src)) g (begin_write_any chunk g)
          (valid', same, b, last, omega (arith, is, length-take n (c ∷ src))),
      omega (arith, is),
    )

HasWritten-trans :
    (chunk : ℕ) (s t u : Bytes) (g g' g'' : GrowingBuffer)
    → HasWritten chunk s g g'
    → HasWritten chunk t g' g''
    → s ++ t ≡ u
    → HasWritten chunk u g g''
HasWritten-trans chunk s t u g g' g'' (v, e) (v', e') is =
    (v', e' ∙ ap (λ x. x ++ t) e ∙ append_assoc (contents g) s t ∙ ap (◌++◌ (contents g)) is)

pub write_loop-HasWritten :
    (chunk fuel : ℕ) (src : Bytes) (g : GrowingBuffer)
    → 0 < chunk
    → length src ≤ fuel
    → IsValid chunk g
    → (g' : GrowingBuffer) × (write_loop chunk fuel src g ≡ some g') × HasWritten chunk src g g'
unfolding write_loop
write_loop-HasWritten chunk fuel [] g pos le valid =
    (g, refl, (valid, sym (append-nil (contents g))))
write_loop-HasWritten chunk zero (c ∷ src) g pos le valid = absurd (omega arith)
write_loop-HasWritten chunk (suc fuel) (c ∷ src) g pos le valid =
    let r = write_some chunk (c ∷ src) g in
    let (first, more) = write_some-HasWritten chunk c src g pos valid in
    let (g', is, later) =
      write_loop-HasWritten chunk fuel (drop r.1 (c ∷ src)) r.0 pos
        (omega (arith, length-drop r.1 (c ∷ src))) first.0 in
    (
      g',
      is,
      HasWritten-trans chunk (take r.1 (c ∷ src)) (drop r.1 (c ∷ src)) (c ∷ src) g r.0 g' first
          later (take-append-drop r.1 (c ∷ src)),
    )

pub v_fmt-HasWritten :
    (chunk : ℕ) (text : Bytes) (g : GrowingBuffer)
    → 0 < chunk
    → length text ≤ chunk
    → IsValid chunk g
    → (g' : GrowingBuffer) × (v_fmt chunk text g ≡ some g') × HasWritten chunk text g g'
unfolding v_fmt
v_fmt-HasWritten chunk text g pos le valid =
    let (valid', same, b, last, le') = begin_write_any-IsReady chunk g pos valid in
    let g0 = begin_write_any chunk g in
    elim (Bool-cases (ltb (room chunk g0) (length text))) [
      | inl long ↦
          let (g1, is, (valid1, same1, b1, last1, le1)) =
            begin_write-IsReady chunk (length text) g0 le valid' in
          rw long (
            commit_write text g1,
            ap (Option.map (commit_write text)) is,
            commit_write-HasWritten chunk text g g1 (valid1, same1 ∙ same, b1, last1, le1),
          )
      | inr short ↦ rw short (
        commit_write text g0,
        refl,
        commit_write-HasWritten chunk text g g0
            (valid', same, b, last, ground (arith, room_lem chunk g0 b last)),
      )
    ]

pub v_fmt-none :
    (chunk : ℕ) (text : Bytes) (g : GrowingBuffer)
    → 0 < chunk
    → ltb chunk (length text) ≡ true
    → IsValid chunk g
    → v_fmt chunk text g ≡ none
unfolding v_fmt begin_write
v_fmt-none chunk text g pos long valid =
    let (valid', same, b, last, le) = begin_write_any-IsReady chunk g pos valid in
    let beyond : ltb (room chunk (begin_write_any chunk g)) (length text) ≡ true =
      ground (arith, room_lem chunk (begin_write_any chunk g) b last) in
    rw (beyond, long) refl
