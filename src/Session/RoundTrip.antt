-- ===== src/Session/RoundTrip.antt =====
-- Reading what has been written: the parts, and how a reader and a writer are composed.
pub mod Keys
pub mod Widgets
pub mod Realms
pub mod Whole
pub mod File
use cm4all_beng_proxy.Common.{
  ℕ, zero, suc, ◌+◌, ◌^◌, ◌≤◌, ◌<◌, ◌≡◌, refl, sym, ap, ap₂, ◌∙◌, Bool, true, false, not, Option,
  none, some, List, [], ◌∷◌, ◌++◌, Bytes, length, take, drop, leb, ◌==◌, ==_refl, if◌then◌else◌,
  arith, length-append, take-append, drop-append, append_assoc, append-nil, Bool-cases, inl, inr,
}
use cm4all_beng_proxy.Session.{Text, c_str}
use cm4all_beng_proxy.Session.Codec.{
  Machine, IsMachine, Outcome, ok, Reader, and_then, ◌>>=◌, pure, ◌then_write◌, null_length,
  read_buffer, write_text, read_number, write_number, read_bool, write_bool, read32, write32,
  read_body, read_string, read_array, write_span, write_string, expect32,
}

-- Wherever the bytes that the writer has produced stand in front of other bytes, and the whole is
-- shorter than `n`, the reader takes exactly them and returns the value.
pub Decodes {ℓ} : {A : Type ℓ} → ℕ → Reader A → Option Bytes → A → Type ℓ
Decodes n r o v = (w rest : Bytes) → o ≡ some w → length (w ++ rest) < n → r (w ++ rest) ≡ ok v rest

module _ {ℓ κ} {A : Type ℓ} {B : Type κ} where
  then_within :
      (n k : ℕ) (r : Reader A) (f : A → Reader B) (o p : Option Bytes) (a : A) (b : B)
      → ((x : Bytes) → o ≡ some x → n ≤ k + length x)
      → Decodes n r o a
      → Decodes k (f a) p b
      → Decodes n (r >>= f) (o then_write p) b
  unfolding Decodes
  then_within n k r f none p a b l h g w rest e lt = absurd (ground arith)
  then_within n k r f (some x) none a b l h g w rest e lt = absurd (ground arith)
  then_within n k r f (some x) (some y) a b l h g w rest e lt =
      let is : w ≡ x ++ y = ground arith in
      let regroup : w ++ rest ≡ x ++ (y ++ rest) = ap (λ z. z ++ rest) is ∙ append_assoc x y rest in
      ap (λ s. and_then (r s) f) regroup
      ∙ ap (λ s. and_then s f) (h x (y ++ rest) refl (omega (arith, ap length regroup)))
      ∙ g y rest refl (omega (arith, l x refl, ap length regroup, length-append x (y ++ rest)))

  pub then-Decodes :
      (n : ℕ) (r : Reader A) (f : A → Reader B) (o p : Option Bytes) (a : A) (b : B)
      → Decodes n r o a
      → Decodes n (f a) p b
      → Decodes n (r >>= f) (o then_write p) b
  then-Decodes n r f o p a b h g = then_within n n r f o p a b (λ x e. omega arith) h g

  -- the first part takes a byte at least
  pub first-Decodes :
      (n : ℕ) (r : Reader A) (f : A → Reader B) (o p : Option Bytes) (a : A) (b : B)
      → ((x : Bytes) → o ≡ some x → 0 < length x)
      → Decodes (suc n) r o a
      → Decodes n (f a) p b
      → Decodes (suc n) (r >>= f) (o then_write p) b
  first-Decodes n r f o p a b l h g =
      then_within (suc n) n r f o p a b (λ x e. omega (arith, l x e)) h g

  pub last-Decodes :
      (n : ℕ) (r : Reader A) (f : A → Reader B) (o : Option Bytes) (a : A) (b : B)
      → Decodes n r o a
      → ((s : Bytes) → f a s ≡ ok b s)
      → Decodes n (r >>= f) o b
  unfolding Decodes
  last-Decodes n r f o a b h g w rest e lt = ap (λ s. and_then s f) (h w rest e lt) ∙ g rest

-- A text that has no null byte, so that it is its own C string.
abbrev pub IsClean : Text → Type 0
IsClean none = Unit
IsClean (some s) = c_str s ≡ s

buffer-Decodes :
    (n : ℕ) (s : Bytes) (size : ℕ) → length s ≡ size → Decodes n (read_buffer size) (some s) s
unfolding Decodes read_buffer
buffer-Decodes n s size e w rest h lt =
    let is : w ≡ s = ground arith in
    let fits : leb size (length (w ++ rest)) ≡ true =
      ground (arith, length-append w rest, ap length is) in
    rw fits (
      ap₂ (λ a b. ok a b) (ap₂ (λ k x. take k (x ++ rest)) (sym e) is ∙ take-append s rest)
        (ap₂ (λ k x. drop k (x ++ rest)) (sym e) is ∙ drop-append s rest))

module _ (m : Machine) (laws : IsMachine m) where
  pub number-Decodes :
      (n size value : ℕ)
      → value < 256 ^ size
      → Decodes n (read_number m size) (write_number m size value) value
  unfolding read_number write_number
  number-Decodes n size value lt =
      last-Decodes n (read_buffer size) (λ bytes. pure (m.from_bytes bytes))
        (some (m.to_bytes size value)) (m.to_bytes size value) value
        (buffer-Decodes n (m.to_bytes size value) size (laws.length-to_bytes size value))
        (λ s. ap (λ v. ok v s) (laws.from_bytes-to_bytes size value lt))

  pub bool-Decodes : (n : ℕ) (b : Bool) → Decodes n (read_bool m) (write_bool m b) b
  unfolding read_bool write_bool
  bool-Decodes n true =
      last-Decodes n (read_number m 1) (λ value. pure (not (value == 0))) (write_number m 1 1) 1
        true (number-Decodes n 1 1 (omega arith)) (λ s. refl)
  bool-Decodes n false =
      last-Decodes n (read_number m 1) (λ value. pure (not (value == 0))) (write_number m 1 0) 0
        false (number-Decodes n 1 0 (omega arith)) (λ s. refl)

  pub read32-write32 :
      (magic : ℕ) (w rest : Bytes)
      → magic < 256 ^ 4
      → write32 m magic ≡ some w
      → read32 m (w ++ rest) ≡ ok magic rest
  unfolding Decodes
  read32-write32 magic w rest lt e =
      number-Decodes (suc (length (w ++ rest))) 4 magic lt w rest e (omega arith)

  -- a magic number that is expected, in front of the end of a record
  pub expect-Decodes {ℓ} :
      {A : Type ℓ} (n magic : ℕ) (v : A)
      → magic < 256 ^ 4
      → Decodes n (expect32 m magic >>= λ _. pure v) (write32 m magic) v
  unfolding expect32 Decodes
  expect-Decodes n magic v lt w rest e short =
      rw (number-Decodes n 4 magic lt w rest e short, ==_refl magic) refl

  body-Decodes :
      (n : ℕ) (s : Bytes)
      → length s < null_length
      → Decodes n (read_body m (length s)) (some s) (some s)
  unfolding read_body Decodes
  body-Decodes n s short w rest e lt =
      let other : (length s == null_length) ≡ false = ground arith in
      rw (other, buffer-Decodes n s (length s) refl w rest e lt) refl

  counted-Decodes :
      (n : ℕ) (s : Bytes)
      → Decodes n
          (read_number m 2 >>= read_body m)
          (write_text s (length s) (m.to_bytes 2))
          (some s)
  unfolding write_text Decodes write_number
  counted-Decodes n s w rest e lt = elim (Bool-cases (leb null_length (length s))) [
    | inl long ↦ absurd (ground (arith, e))
    | inr fits ↦
        let short : length s < null_length = ground arith in
        then-Decodes n (read_number m 2) (read_body m) (write_number m 2 (length s)) (some s)
          (length s) (some s) (number-Decodes n 2 (length s) (omega arith)) (body-Decodes n s short)
          w rest (ground arith) lt
  ]

  null-Decodes :
      (n : ℕ) → Decodes n (read_number m 2 >>= read_body m) (write_number m 2 null_length) none
  unfolding read_body
  null-Decodes n =
      last-Decodes n (read_number m 2) (read_body m) (write_number m 2 null_length) null_length none
        (number-Decodes n 2 null_length (omega arith)) (λ s. refl)

  pub span-Decodes : (n : ℕ) (t : Text) → Decodes n (read_array m) (write_span m t) t
  unfolding read_array write_span
  span-Decodes n none = null-Decodes n
  span-Decodes n (some s) = counted-Decodes n s

  -- a key of a map is written as a span and read as a string
  pub key-Decodes : (n : ℕ) (s : Bytes) → Decodes n (read_string m) (write_span m (some s)) (some s)
  unfolding read_string write_span
  key-Decodes n s = counted-Decodes n s

  pub string-Decodes :
      (n : ℕ) (t : Text) → IsClean t → Decodes n (read_string m) (write_string m t) t
  unfolding read_string write_string write_span
  string-Decodes n none clean = null-Decodes n
  string-Decodes n (some s) clean = rw clean (counted-Decodes n s)
