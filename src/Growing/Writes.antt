-- ===== src/Growing/Writes.antt =====
-- What is written to a GrowingBuffer comes behind its contents.
use mathlib.Core.Option
use cm4all_beng_proxy.Common.{
  ℕ, ◌+◌, ◌≤◌, ◌<◌, ◌≡◌, refl, sym, ap, ◌∙◌, true, false, Option, none, some, List, [], ◌∷◌, ◌++◌,
  Bytes, length, drop, ltb, ◌==◌, if◌then◌else◌, arith, append_assoc, append-nil, length-append,
  drop-append_le, All, All-append, Bool-cases, inl, inr,
}
use cm4all_beng_proxy.Growing.{
  GrowingBuffer, last_of, tail, append_buffer, on_tail, commit_write, copy_to, begin_write,
  begin_write_any, write_length,
}
use cm4all_beng_proxy.Growing.Contents.{contents, has_front, Fits, IsValid, copy_to-append}

last_of-append : (bs : List Bytes) (b : Bytes) → last_of (bs ++ b ∷ []) ≡ some b
unfolding last_of
last_of-append [] b = refl
last_of-append (c ∷ []) b = refl
last_of-append (c ∷ d ∷ bs) b = last_of-append (d ∷ bs) b

has_front-append : (bs : List Bytes) (b : Bytes) → has_front (bs ++ b ∷ []) ≡ true
has_front-append [] b = refl
has_front-append (c ∷ bs) b = refl

Fits-append : (p : ℕ) (bs : List Bytes) (b : Bytes) → Fits p bs → Fits p (bs ++ b ∷ [])
Fits-append p [] b e = omega arith
Fits-append p (c ∷ bs) b le = le

-- A buffer with a tail that has some room, and with the contents of `g`.
abbrev pub IsReady : ℕ → GrowingBuffer → ℕ → GrowingBuffer → Type 0
IsReady chunk g size g' =
    IsValid chunk g'
    × (contents g' ≡ contents g)
    × (b : Bytes) × (tail g' ≡ some b)
    × (length b + size ≤ chunk)

append_buffer-IsReady :
    (chunk size : ℕ) (g : GrowingBuffer)
    → size ≤ chunk
    → IsValid chunk g
    → IsReady chunk g size (append_buffer g)
unfolding append_buffer tail copy_to last_of
append_buffer-IsReady chunk size g le (is, small, fits) = elim (Bool-cases g.has_tail) [
  | inl there ↦ rw there (
    (
      sym (has_front-append g.head []),
      All-append (λ b. length b ≤ chunk) g.head ([] ∷ []) small (omega arith, tt),
      Fits-append g.position g.head [] fits,
    ),
    ap (drop g.position) (copy_to-append g.head ([] ∷ []) ∙ append-nil (copy_to g.head)),
    [],
    last_of-append g.head [],
    omega arith,
  )
  | inr gone ↦ rw gone (absent g.position g.head (sym is ∙ gone) fits)
]
  where
    absent :
        (p : ℕ) (bs : List Bytes)
        → has_front bs ≡ false
        → Fits p bs
        → IsReady chunk
            (record { head = bs; has_tail = false; position = p })
            size
            (record { head = [] ∷ []; has_tail = true; position = p })
    absent p [] e fits = ((refl, (omega arith, tt), omega arith), refl, [], refl, omega arith)
    absent p (b ∷ bs) e fits = absurd (ground arith)

last_small :
    (chunk : ℕ) (bs : List Bytes) (b : Bytes)
    → All (λ c. length c ≤ chunk) bs
    → last_of bs ≡ some b
    → length b ≤ chunk
unfolding last_of
last_small chunk [] b small e = absurd (ground arith)
last_small chunk (c ∷ []) b small e = ground arith
last_small chunk (c ∷ d ∷ bs) b (le, small) e = last_small chunk (d ∷ bs) b small e

tail-last_of : (g : GrowingBuffer) (b : Bytes) → tail g ≡ some b → last_of g.head ≡ some b
unfolding tail
tail-last_of g b e = ground arith

tail_small :
    (chunk : ℕ) (g : GrowingBuffer) (b : Bytes)
    → IsValid chunk g
    → tail g ≡ some b
    → length b ≤ chunk
tail_small chunk g b (is, small, fits) e = last_small chunk g.head b small (tail-last_of g b e)

pub begin_write_any-IsReady :
    (chunk : ℕ) (g : GrowingBuffer)
    → 0 < chunk
    → IsValid chunk g
    → IsReady chunk g 1 (begin_write_any chunk g)
unfolding begin_write_any
begin_write_any-IsReady chunk g pos valid = go (tail g) refl
  where
    go :
        (o : Option Bytes)
        → tail g ≡ o
        → IsReady chunk g 1 (elim o [
          | none ↦ append_buffer g
          | some b ↦ if length b == chunk then append_buffer g else g
        ])
    go none e = append_buffer-IsReady chunk 1 g pos valid
    go (some b) e = elim (Bool-cases (length b == chunk)) [
      | inl full ↦ rw full (append_buffer-IsReady chunk 1 g pos valid)
      | inr free ↦ rw free (valid, refl, b, e, ground (arith, tail_small chunk g b valid e))
    ]

pub begin_write-IsReady :
    (chunk size : ℕ) (g : GrowingBuffer)
    → size ≤ chunk
    → IsValid chunk g
    → (g' : GrowingBuffer) × (begin_write chunk size g ≡ some g') × IsReady chunk g size g'
unfolding begin_write
begin_write-IsReady chunk size g le valid = rw (small) (go (tail g) refl)
  where
    small : ltb chunk size ≡ false
    small = ground arith

    go :
        (o : Option Bytes)
        → tail g ≡ o
        → (g' : GrowingBuffer) × (some (elim o [
          | none ↦ append_buffer g
          | some b ↦ if ltb chunk (length b + size) then append_buffer g else g
        ])
            ≡ some g')
          × IsReady chunk g size g'
    go none e = (append_buffer g, refl, append_buffer-IsReady chunk size g le valid)
    go (some b) e = elim (Bool-cases (ltb chunk (length b + size))) [
      | inl full ↦ rw full (append_buffer g, refl, append_buffer-IsReady chunk size g le valid)
      | inr free ↦ rw free (g, refl, (valid, refl, b, e, ground arith))
    ]

copy_to-on_tail :
    (s : Bytes) (bs : List Bytes) (b : Bytes)
    → last_of bs ≡ some b
    → copy_to (on_tail s bs) ≡ copy_to bs ++ s
unfolding copy_to on_tail last_of
copy_to-on_tail s [] b e = absurd (ground arith)
copy_to-on_tail s (c ∷ []) b e = append-nil (c ++ s) ∙ ap (λ x. x ++ s) (sym (append-nil c))
copy_to-on_tail s (c ∷ d ∷ bs) b e =
    ap (◌++◌ c) (copy_to-on_tail s (d ∷ bs) b e) ∙ sym (append_assoc c (copy_to (d ∷ bs)) s)

on_tail_small :
    (chunk : ℕ) (s : Bytes) (bs : List Bytes) (b : Bytes)
    → All (λ c. length c ≤ chunk) bs
    → last_of bs ≡ some b
    → length b + length s ≤ chunk
    → All (λ c. length c ≤ chunk) (on_tail s bs)
unfolding on_tail last_of
on_tail_small chunk s [] b small e le = tt
on_tail_small chunk s (c ∷ []) b small e le = (ground (arith, length-append c s), tt)
on_tail_small chunk s (c ∷ d ∷ bs) b (first, small) e le =
    (first, on_tail_small chunk s (d ∷ bs) b small e le)

on_tail-Fits : (p : ℕ) (s : Bytes) (bs : List Bytes) → Fits p bs → Fits p (on_tail s bs)
unfolding on_tail
on_tail-Fits p s [] e = e
on_tail-Fits p s (c ∷ []) le = omega (arith, length-append c s)
on_tail-Fits p s (c ∷ d ∷ bs) le = le

has_front-on_tail : (s : Bytes) (bs : List Bytes) → has_front (on_tail s bs) ≡ has_front bs
unfolding on_tail
has_front-on_tail s [] = refl
has_front-on_tail s (c ∷ []) = refl
has_front-on_tail s (c ∷ d ∷ bs) = refl

pub Fits-le : (p : ℕ) (bs : List Bytes) → Fits p bs → p ≤ length (copy_to bs)
unfolding copy_to
Fits-le p [] e = omega arith
Fits-le p (b ∷ bs) le = omega (arith, length-append b (copy_to bs))

-- A buffer that is valid, and that holds the bytes `s` behind the contents of `g`.
abbrev pub HasWritten : ℕ → Bytes → GrowingBuffer → GrowingBuffer → Type 0
HasWritten chunk s g g' = IsValid chunk g' × (contents g' ≡ contents g ++ s)

pub commit_write-HasWritten :
    (chunk : ℕ) (s : Bytes) (g g' : GrowingBuffer)
    → IsReady chunk g (length s) g'
    → HasWritten chunk s g (commit_write s g')
unfolding commit_write
commit_write-HasWritten chunk s g g' ((is, small, fits), same, b, last, le) =
    let end = tail-last_of g' b last in
    (
      (
        is ∙ sym (has_front-on_tail s g'.head),
        on_tail_small chunk s g'.head b small end le,
        on_tail-Fits g'.position s g'.head fits,
      ),
      ap (drop g'.position) (copy_to-on_tail s g'.head b end)
          ∙ drop-append_le g'.position (copy_to g'.head) s (Fits-le g'.position g'.head fits)
          ∙ ap (λ x. x ++ s) same,
    )

pub write_length-HasWritten :
    (chunk : ℕ) (s : Bytes) (g : GrowingBuffer)
    → length s ≤ chunk
    → IsValid chunk g
    → (g' : GrowingBuffer) × (write_length chunk s g ≡ some g') × HasWritten chunk s g g'
unfolding write_length
write_length-HasWritten chunk s g le valid =
    let (g', is, ready) = begin_write-IsReady chunk (length s) g le valid in
    (
      commit_write s g',
      ap (Option.map (commit_write s)) is,
      commit_write-HasWritten chunk s g g' ready,
    )
