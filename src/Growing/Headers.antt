-- ===== src/Growing/Headers.antt =====
-- Reserve and Prepend: room for a header that is written last.
use cm4all_beng_proxy.Common.{
  ℕ, zero, suc, ◌-◌, ◌≤◌, ◌<◌, ◌≡◌, refl, sym, ap, ◌∙◌, Bool, true, false, ◌&&◌, Option, none, some,
  List, [], ◌∷◌, ◌++◌, Bytes, length, take, drop, ltb, leb, ◌==◌, if◌then◌else◌, arith,
  append_assoc, length-take, drop-append, drop-append_le, Bool-cases, inl, inr,
}
use cm4all_beng_proxy.Growing.{
  GrowingBuffer, new, tail, append_buffer, on_tail, commit_write, copy_to, begin_write,
  begin_write_any, write_some, write_loop, write, reserve, prepend, dup,
}
use cm4all_beng_proxy.Growing.Contents.{contents, IsValid, dup_lem}
use cm4all_beng_proxy.Growing.Written.{write_loop-HasWritten}

abbrev any_for : ℕ → GrowingBuffer → Option Bytes → GrowingBuffer
any_for chunk g none = append_buffer g
any_for chunk g (some b) = if length b == chunk then append_buffer g else g

begin_write_any_position :
    (chunk : ℕ) (g : GrowingBuffer) → (begin_write_any chunk g).position ≡ g.position
unfolding begin_write_any append_buffer
begin_write_any_position chunk g = go (tail g)
  where
    go : (o : Option Bytes) → (any_for chunk g o).position ≡ g.position
    go none = refl
    go (some b) = elim (Bool-cases (length b == chunk)) [
      | inl full ↦ rw full refl
      | inr free ↦ rw free refl
    ]

write_loop_position :
    (chunk fuel : ℕ) (src : Bytes) (g g' : GrowingBuffer)
    → write_loop chunk fuel src g ≡ some g'
    → g'.position ≡ g.position
unfolding write_loop write_some commit_write
write_loop_position chunk fuel [] g g' e = ground arith
write_loop_position chunk zero (c ∷ src) g g' e = absurd (ground arith)
write_loop_position chunk (suc fuel) (c ∷ src) g g' e =
    write_loop_position chunk fuel _ _ g' e ∙ begin_write_any_position chunk g

-- what the bytes of the header take the place of
header_at :
    (p : ℕ) (s b rest : Bytes)
    → length s ≤ p
    → p ≤ length b
    → drop (p - length s) ((take (p - length s) b ++ s ++ drop p b) ++ rest)
      ≡ s ++ drop p (b ++ rest)
header_at p s b rest le fits =
    let before = take (p - length s) b in
    let size : length before ≡ p - length s = omega (arith, length-take (p - length s) b) in
    ap (drop (p - length s))
      (append_assoc (before ++ s) (drop p b) rest ∙ append_assoc before s (drop p b ++ rest))
    ∙ ap (λ k. drop k (before ++ (s ++ (drop p b ++ rest)))) (sym size)
    ∙ drop-append before (s ++ (drop p b ++ rest))
    ∙ ap (◌++◌ s) (sym (drop-append_le p b rest fits))

prepend-IsValid :
    (chunk p : ℕ) (s : Bytes) (bs : List Bytes) (t : Bool)
    → IsValid chunk (record { head = bs; has_tail = t; position = p })
    → 0 < p
    → length s ≤ p
    → (g' : GrowingBuffer) × (prepend s (record { head = bs; has_tail = t; position = p })
        ≡ some g')
      × (contents g' ≡ s ++ drop p (copy_to bs))
unfolding prepend copy_to
prepend-IsValid chunk p s [] t (is, small, fits) pos le = absurd (omega arith)
prepend-IsValid chunk p s (b ∷ bs) t (is, small, fits) pos le =
    let enough : (leb (length s) p && leb p (length b)) ≡ true = ground arith in
    rw enough (
      record {
        head = (take (p - length s) b ++ s ++ drop p b) ∷ bs;
        has_tail = t;
        position = p - length s;
      },
      refl,
      header_at p s b (copy_to bs) le fits,
    )

reserve_lem :
    (chunk : ℕ) (space : Bytes)
    → length space ≤ chunk
    → reserve chunk space new
      ≡ some (record { head = space ∷ []; has_tail = true; position = length space })
unfolding reserve begin_write tail append_buffer commit_write on_tail
reserve_lem chunk space fits = rw (small) refl
  where
    small : ltb chunk (length space) ≡ false
    small = ground arith

nothing_left : (space : Bytes) → drop (length space) (copy_to (space ∷ [])) ≡ []
unfolding copy_to
nothing_left space = drop-append space []

-- Reserve on a new buffer, any Write and a Prepend of no more than was reserved: what Dup then copies
-- is the header, the part of the reserved bytes that it did not take being gone, and what was
-- written behind it. No assertion fails on the way. Something is reserved, and it fits in a buffer.
prepend-write-reserve :
    (chunk : ℕ) (space src s : Bytes)
    → 0 < length space
    → length space ≤ chunk
    → length s ≤ length space
    → (g : GrowingBuffer) × (g' : GrowingBuffer) × (g'' : GrowingBuffer) × (reserve chunk space new
        ≡ some g)
      × (write chunk src g ≡ some g')
      × (prepend s g' ≡ some g'')
      × (dup g'' ≡ s ++ src)
unfolding write copy_to
prepend-write-reserve chunk space src s pos fits le =
    let g : GrowingBuffer = record {
      head = space ∷ [];
      has_tail = true;
      position = length space;
    } in
    let (g', wrote, (valid, same)) =
      write_loop-HasWritten chunk (length src) src g (omega arith) (omega arith)
        (refl, (fits, tt), omega arith) in
    let at_end = write_loop_position chunk (length src) src g g' wrote in
    let (g'', put, is) =
      prepend-IsValid chunk g'.position s g'.head g'.has_tail valid (omega (arith, at_end))
        (omega (arith, at_end)) in
    (
      g,
      g',
      g'',
      reserve_lem chunk space fits,
      wrote,
      put,
      dup_lem g'' ∙ is ∙ ap (◌++◌ s) (same ∙ ap (λ x. x ++ src) (nothing_left space)),
    )
