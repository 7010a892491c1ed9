-- ===== src/Growing/Contents.antt =====
-- What a GrowingBuffer holds: the bytes of its list behind the position.
use cm4all_beng_proxy.Common.{
  ℕ, zero, suc, ◌-◌, ◌≤◌, ◌<◌, ◌≡◌, refl, sym, ap, ◌∙◌, Bool, true, false, some, List, [], ◌∷◌,
  ◌++◌, Bytes, length, drop, ltb, leb, ◌==◌, if◌then◌else◌, arith, append_assoc, length-append,
  length-drop, drop-append_le, drop-append_ge, All, Bool-cases, inl, inr,
}
use cm4all_beng_proxy.Growing.{
  GrowingBuffer, for_each_buffer, sum_sizes, copy_to, get_size, dup, read, push_buckets,
  fill_bucket_list,
}

abbrev pub contents : GrowingBuffer → Bytes
contents g = drop g.position (copy_to g.head)

abbrev pub has_front : List Bytes → Bool
has_front [] = false
has_front (b ∷ bs) = true

abbrev pub Fits : ℕ → List Bytes → Type 0
Fits position [] = position ≡ 0
Fits position (b ∷ bs) = position ≤ length b

-- The tail is there if a buffer is, no buffer is too long, and the position is in the first one.
abbrev pub IsValid : ℕ → GrowingBuffer → Type 0
IsValid chunk g =
    (g.has_tail ≡ has_front g.head) × All (λ b. length b ≤ chunk) g.head × Fits g.position g.head

pub copy_to-append : (cs bs : List Bytes) → copy_to (cs ++ bs) ≡ copy_to cs ++ copy_to bs
unfolding copy_to
copy_to-append [] bs = refl
copy_to-append (c ∷ cs) bs =
    ap (◌++◌ c) (copy_to-append cs bs) ∙ sym (append_assoc c (copy_to cs) (copy_to bs))

pub sum_sizes_lem : (bs : List Bytes) → sum_sizes bs ≡ length (copy_to bs)
unfolding sum_sizes copy_to
sum_sizes_lem [] = refl
sum_sizes_lem (b ∷ bs) = omega (arith, sum_sizes_lem bs, length-append b (copy_to bs))

positive : (n : ℕ) → ltb 0 (suc n) ≡ true
positive n = ground arith

pub copy_to-for_each_buffer :
    (skip : ℕ) (bs : List Bytes) → copy_to (for_each_buffer skip bs) ≡ drop skip (copy_to bs)
unfolding copy_to for_each_buffer
copy_to-for_each_buffer zero [] = refl
copy_to-for_each_buffer (suc n) [] = refl
copy_to-for_each_buffer zero (b ∷ bs) = ap (◌++◌ b) (copy_to-for_each_buffer 0 bs)
copy_to-for_each_buffer (suc n) (b ∷ bs) = elim (Bool-cases (leb (length b) (suc n))) [
  | inl past ↦
      rw (positive n, past)
        (copy_to-for_each_buffer (suc n - length b) bs
          ∙ sym (drop-append_ge (suc n) b (copy_to bs) (ground arith)))
  | inr inside ↦
      rw (positive n, inside)
        (ap (◌++◌ (drop (suc n) b)) (copy_to-for_each_buffer 0 bs)
          ∙ sym (drop-append_le (suc n) b (copy_to bs) (ground arith)))
]

pub copy_to-push_buckets :
    (skip : ℕ) (bs : List Bytes) → copy_to (push_buckets skip bs) ≡ drop skip (copy_to bs)
unfolding copy_to push_buckets
copy_to-push_buckets zero [] = refl
copy_to-push_buckets (suc n) [] = refl
copy_to-push_buckets n (b ∷ bs) = elim (Bool-cases (leb (length b) n)) [
  | inl past ↦ rw past (
      copy_to-push_buckets (n - length b) bs ∙ sym (drop-append_ge n b (copy_to bs) (ground arith)))
  | inr inside ↦
      rw inside
        (go n (copy_to-push_buckets 0 bs) ∙ sym (drop-append_le n b (copy_to bs) (ground arith)))
]
  where
    go :
        (k : ℕ)
        → copy_to (push_buckets 0 bs) ≡ copy_to bs
        → (if ltb 0 k then drop k b else b) ++ copy_to (push_buckets 0 bs) ≡ drop k b ++ copy_to bs
    go zero e = ap (◌++◌ b) e
    go (suc k) e = rw (positive k) (ap (◌++◌ (drop (suc k) b)) e)

-- no bucket is empty
pub push_buckets-nonempty :
    (skip : ℕ) (bs : List Bytes) → All (λ b. 0 < length b) (push_buckets skip bs)
unfolding push_buckets
push_buckets-nonempty skip [] = tt
push_buckets-nonempty skip (b ∷ bs) = elim (Bool-cases (leb (length b) skip)) [
  | inl past ↦ rw past (push_buckets-nonempty (skip - length b) bs)
  | inr inside ↦ rw inside (ground (arith, length-drop skip b), push_buckets-nonempty 0 bs)
]

spans_lem : (g : GrowingBuffer) → copy_to (for_each_buffer g.position g.head) ≡ contents g
spans_lem g = copy_to-for_each_buffer g.position g.head

nil_of_length : (s : Bytes) → (length s == 0) ≡ true → s ≡ []
nil_of_length [] e = refl
nil_of_length (c ∷ s) e = absurd (ground arith)

pub get_size_lem : (g : GrowingBuffer) → get_size g ≡ length (contents g)
unfolding get_size
get_size_lem g = sum_sizes_lem (for_each_buffer g.position g.head) ∙ ap length (spans_lem g)

pub dup_lem : (g : GrowingBuffer) → dup g ≡ contents g
unfolding dup
dup_lem g = elim (Bool-cases (get_size g == 0)) [
  | inl nothing ↦
      rw nothing
        (sym (nil_of_length (contents g) (ap (λ n. n == 0) (sym (get_size_lem g)) ∙ nothing)))
  | inr more ↦ rw more (spans_lem g)
]

-- the buffers behind the head
abbrev pub behind : List Bytes → List Bytes
behind [] = []
behind (b ∷ bs) = bs

read-copy_to :
    (chunk p : ℕ) (bs : List Bytes) (t : Bool)
    → Fits p bs
    → p < chunk
    → (first : Bytes) × (read chunk (record { head = bs; has_tail = t; position = p }) ≡ some first)
      × (drop p (copy_to bs) ≡ first ++ copy_to (behind bs))
unfolding copy_to read
read-copy_to chunk p [] t e lt = ([], refl, rw e refl)
read-copy_to chunk p (b ∷ bs) t le lt =
    let inside : ltb p chunk ≡ true = ground arith in
    rw inside (drop p b, refl, drop-append_le p b (copy_to bs) le)

-- The ways to look at a valid buffer whose position is not at the end of the memory of its first part
-- agree: Dup copies the bytes of all parts but those in front of the position, GetSize is the length of
-- that, the buckets of FillBucketList make up what is behind the part to skip, and none of them is
-- empty; and Read gives all that is in front of the bytes of the second and later parts.
pub fill_bucket_list-dup :
    (chunk n : ℕ) (g : GrowingBuffer)
    → IsValid chunk g
    → g.position < chunk
    → (dup g ≡ drop g.position (copy_to g.head))
      × (get_size g ≡ length (dup g))
      × (copy_to (fill_bucket_list n g) ≡ drop n (dup g))
      × All (λ b. 0 < length b) (fill_bucket_list n g)
      × (first : Bytes) × (read chunk g ≡ some first)
      × (dup g ≡ first ++ copy_to (behind g.head))
unfolding fill_bucket_list
fill_bucket_list-dup chunk n g valid lt =
    let (first, e, is) = read-copy_to chunk g.position g.head g.has_tail valid.2 lt in
    (
      dup_lem g,
      get_size_lem g ∙ ap length (sym (dup_lem g)),
      copy_to-push_buckets n (for_each_buffer g.position g.head)
          ∙ ap (drop n) (spans_lem g ∙ sym (dup_lem g)),
      push_buckets-nonempty n (for_each_buffer g.position g.head),
      first,
      e,
      dup_lem g ∙ is,
    )
