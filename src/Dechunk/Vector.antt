-- ===== src/Dechunk/Vector.antt =====
-- The vector of chunk boundaries of src/istream/DechunkIstream.cxx under `AddHeader` and
-- `AddData`.
use cm4all_beng_proxy.Common.{
  ℕ, ◌+◌, ◌≤◌, ◌<◌, ◌≡◌, ◌≢◌, inl, inr, refl, Option, none, some, List, [], ◌∷◌, ◌++◌, length, All,
  All-append, ◌==◌, arith, Bool-cases, length-append,
}
use cm4all_beng_proxy.Dechunk.{
  ParsedChunk, max_chunks, back?, set_back, emplace_back, header_at, add_header, data_at, add_data,
}

abbrev pub total : List ParsedChunk → ℕ
total [] = 0
total (c ∷ cs) = c.header + c.payload + total cs

pub total-append : (cs ds : List ParsedChunk) → total (cs ++ ds) ≡ total cs + total ds
total-append [] ds = omega arith
total-append (c ∷ cs) ds = omega (arith, total-append cs ds)

-- No entry is empty.
abbrev pub IsFilled : ParsedChunk → Type 0
IsFilled c = 0 < c.header + c.payload

-- A vector with `n` more bytes, of the same entries or of one more.
pub record Grown (n : ℕ) (cs ds : List ParsedChunk) : Type 0 where
  pub sum : total ds ≡ total cs + n
  pub room : length ds ≤ max_chunks
  pub filled : All IsFilled ds

set_back-Grown :
    (n : ℕ) (cs : List ParsedChunk) (c v : ParsedChunk)
    → back? cs ≡ some c
    → v.header + v.payload ≡ c.header + c.payload + n
    → All IsFilled cs
    → (total (set_back cs v) ≡ total cs + n)
      × (length (set_back cs v) ≡ length cs)
      × All IsFilled (set_back cs v)
unfolding back? set_back
set_back-Grown n [] c v e s f = ground arith
set_back-Grown n (x ∷ []) c v e s f = ground arith
set_back-Grown n (x ∷ y ∷ xs) c v e s f = ground (arith, set_back-Grown n (y ∷ xs) c v e s f.1)

emplace_back-Grown :
    (n : ℕ) (cs : List ParsedChunk) (v : ParsedChunk) {ds : List ParsedChunk}
    → 0 < n
    → v.header + v.payload ≡ n
    → All IsFilled cs
    → emplace_back cs v ≡ some ds
    → Grown n cs ds
unfolding emplace_back
emplace_back-Grown n cs v {ds} pos s f e =
    let fit : length cs < max_chunks = ground arith in
    let is : ds ≡ cs ++ v ∷ [] = ground arith in
    rw is (record {
      sum = omega (arith, total-append cs (v ∷ []));
      room = omega (arith, length-append cs (v ∷ []));
      filled = All-append IsFilled cs (v ∷ []) f (omega arith, tt);
    })

header_at-Grown :
    (n : ℕ) (cs : List ParsedChunk) (o : Option ParsedChunk) {ds : List ParsedChunk}
    → 0 < n
    → length cs ≤ max_chunks
    → All IsFilled cs
    → back? cs ≡ o
    → header_at cs n o ≡ some ds
    → Grown n cs ds
unfolding header_at
header_at-Grown n cs none pos room f q h = emplace_back-Grown n cs _ pos (omega arith) f h
header_at-Grown n cs (some c) {ds} pos room f q h = elim (Bool-cases (c.payload == 0)) [
  | inl e ↦
      let v : ParsedChunk = record c { header = c.header + n } in
      let is : ds ≡ set_back cs v = ground arith in
      let (s, l, g) = set_back-Grown n cs c v q (omega arith) f in
      rw is (record { sum = s; room = omega arith; filled = g })
  | inr e ↦
      emplace_back-Grown n cs (record { header = n; payload = 0 }) pos (omega arith) f (rw e at h)
]

pub add_header-Grown :
    (n : ℕ) (cs : List ParsedChunk) {ds : List ParsedChunk}
    → 0 < n
    → length cs ≤ max_chunks
    → All IsFilled cs
    → add_header cs n ≡ some ds
    → Grown n cs ds
unfolding add_header
add_header-Grown n cs pos room f h = header_at-Grown n cs (back? cs) pos room f refl h

data_at-Grown :
    (n : ℕ) (cs : List ParsedChunk) (o : Option ParsedChunk) {ds : List ParsedChunk}
    → 0 < n
    → length cs ≤ max_chunks
    → All IsFilled cs
    → back? cs ≡ o
    → data_at cs n o ≡ some ds
    → Grown n cs ds
unfolding data_at
data_at-Grown n cs none pos room f q h = emplace_back-Grown n cs _ pos (omega arith) f h
data_at-Grown n cs (some c) {ds} pos room f q h =
    let v : ParsedChunk = record c { payload = c.payload + n } in
    let is : ds ≡ set_back cs v = ground arith in
    let (s, l, g) = set_back-Grown n cs c v q (omega arith) f in
    rw is (record { sum = s; room = omega arith; filled = g })

pub add_data-Grown :
    (n : ℕ) (cs : List ParsedChunk) {ds : List ParsedChunk}
    → 0 < n
    → length cs ≤ max_chunks
    → All IsFilled cs
    → add_data cs n ≡ some ds
    → Grown n cs ds
unfolding add_data
add_data-Grown n cs pos room f h = data_at-Grown n cs (back? cs) pos room f refl h

-- `AddHeader` fails only where the vector is full, and `AddData` never fails.
header_at-full :
    (n : ℕ) (cs : List ParsedChunk) (o : Option ParsedChunk)
    → header_at cs n o ≡ none
    → max_chunks ≤ length cs
unfolding header_at emplace_back
header_at-full n cs none h = ground arith
header_at-full n cs (some c) h = ground arith

pub add_header-full :
    (n : ℕ) (cs : List ParsedChunk) → add_header cs n ≡ none → max_chunks ≤ length cs
unfolding add_header
add_header-full n cs h = header_at-full n cs (back? cs) h

back?-cons {ℓ} : {A : Type ℓ} (x : A) (xs : List A) → (c : A) × (back? (x ∷ xs) ≡ some c)
unfolding back?
back?-cons x [] = (x, refl)
back?-cons x (y ∷ xs) = back?-cons y xs

pub add_data-ne-none : (n : ℕ) (cs : List ParsedChunk) → add_data cs n ≢ none
unfolding add_data data_at emplace_back back?
add_data-ne-none n [] = ground arith
add_data-ne-none n (x ∷ xs) = let (c, e) = back?-cons x xs in rw e (ground arith)
