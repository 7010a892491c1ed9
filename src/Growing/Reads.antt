-- ===== src/Growing/Reads.antt =====
-- What is taken from a GrowingBuffer comes from the front of its contents.
use cm4all_beng_proxy.Common.{
  ℕ, zero, suc, ◌+◌, ◌-◌, min, ◌≤◌, ◌<◌, ◌≡◌, refl, sym, ap, ◌∙◌, Bool, true, false, none, some,
  List, [], ◌∷◌, ◌++◌, Bytes, length, drop, ltb, leb, ◌==◌, arith, length-append, length-drop,
  drop-append_ge, drop-add, Bool-cases, inl, inr,
}
use cm4all_beng_proxy.Growing.{
  GrowingBuffer, copy_to, popped, consume_head, skip_loop, consume_loop, front,
}
use cm4all_beng_proxy.Growing.Contents.{contents, has_front, Fits, IsValid}

-- A buffer that is valid, and that holds the contents of `g` without the first `n` bytes.
abbrev pub HasTaken : ℕ → ℕ → Bytes → GrowingBuffer → Type 0
HasTaken chunk n s g' = IsValid chunk g' × (contents g' ≡ drop n s)

popped_lem :
    (bs : List Bytes) (has_tail : Bool) → has_tail ≡ true → popped bs has_tail ≡ has_front bs
unfolding popped
popped_lem [] has_tail e = refl
popped_lem (b ∷ bs) has_tail e = e

Fits-zero : (bs : List Bytes) → Fits 0 bs
Fits-zero [] = refl
Fits-zero (b ∷ bs) = omega arith

-- the first buffer is used up
past_front :
    (n p : ℕ) (b : Bytes) (s : Bytes)
    → p ≤ length b
    → length b ≤ p + n
    → drop (n - (length b - p)) s ≡ drop n (drop p (b ++ s))
past_front n p b s le past =
    ap (λ k. drop k s) (omega arith) ∙ sym (drop-append_ge (p + n) b s past) ∙ drop-add p n (b ++ s)

abbrev nil : Bytes
nil = []

zero_of_test : (n : ℕ) → (n == 0) ≡ true → 0 ≡ n
zero_of_test n e = ground arith

test_zero : (n : ℕ) → n ≡ 0 → (n == 0) ≡ true
test_zero n e = ground arith

test_more : (n : ℕ) → 0 < n → (n == 0) ≡ false
test_more n lt = ground arith

within : (n k : ℕ) → k ≤ n → ltb n k ≡ false
within n k le = ground arith

drop-nil : (p n : ℕ) → drop p nil ≡ drop n (drop p nil)
drop-nil zero zero = refl
drop-nil zero (suc n) = refl
drop-nil (suc p) zero = refl
drop-nil (suc p) (suc n) = refl

pub skip_loop-HasTaken :
    (chunk n p : ℕ) (bs : List Bytes) (t : Bool)
    → IsValid chunk (record { head = bs; has_tail = t; position = p })
    → n ≤ length (drop p (copy_to bs))
    → (g' : GrowingBuffer) × (skip_loop n p bs t ≡ some g')
      × HasTaken chunk n (drop p (copy_to bs)) g'
unfolding skip_loop copy_to
skip_loop-HasTaken chunk n p [] t valid le =
    let nothing : n ≡ 0 = omega (arith, length-drop p nil) in
    rw (test_zero n nothing) (
      record { head = []; has_tail = t; position = p },
      refl,
      (valid, ap (λ k. drop k (drop p nil)) (sym nothing)),
    )
skip_loop-HasTaken chunk n p (b ∷ bs) t (is, (small, smalls), fits) le =
    elim (Bool-cases (n == 0)) [
      | inl nothing ↦ rw nothing (
        record { head = b ∷ bs; has_tail = t; position = p },
        refl,
        (
          (is, (small, smalls), fits),
          ap (λ k. drop k (drop p (b ++ copy_to bs))) (zero_of_test n nothing),
        ),
      )
      | inr some_bytes ↦ elim (Bool-cases (ltb n (length b - p))) [
        | inl inside ↦
            rw (some_bytes, inside)
              (
                record { head = b ∷ bs; has_tail = t; position = p + n },
                refl,
                ((is, (small, smalls), ground arith), drop-add p n (b ++ copy_to bs)),
              )
        | inr past ↦
            let (g', e, (valid', same)) =
              skip_loop-HasTaken chunk (n - (length b - p)) 0 bs (popped bs t)
                (popped_lem bs t is, smalls, Fits-zero bs)
                (ground (arith, length-drop p (b ++ copy_to bs), length-append b (copy_to bs))) in
            rw (some_bytes, past)
              (g', e, (valid', same ∙ past_front n p b (copy_to bs) fits (ground arith)))
      ]
    ]

-- the assertion of Skip: there is a buffer while bytes are left to skip
pub skip_loop-none :
    (n p : ℕ) (bs : List Bytes) (t : Bool)
    → Fits p bs
    → length (drop p (copy_to bs)) < n
    → skip_loop n p bs t ≡ none
unfolding skip_loop copy_to
skip_loop-none n p [] t fits lt = rw (test_more n (omega arith)) refl
skip_loop-none n p (b ∷ bs) t fits lt =
    let size = length-drop p (b ++ copy_to bs) in
    let parts = length-append b (copy_to bs) in
    rw (test_more n (omega arith), within n (length b - p) (omega (arith, size, parts)))
      (skip_loop-none (n - (length b - p)) 0 bs (popped bs t) (Fits-zero bs)
        (omega (arith, size, parts)))

pub consume_loop-HasTaken :
    (chunk r n p : ℕ) (bs : List Bytes) (t : Bool)
    → IsValid chunk (record { head = bs; has_tail = t; position = p })
    → let (g', taken) = consume_loop r n p bs t in
      HasTaken chunk n (drop p (copy_to bs)) g' × (taken ≡ r + min n (length (drop p (copy_to bs))))
unfolding consume_loop copy_to
consume_loop-HasTaken chunk r n p [] t valid =
    ((valid, drop-nil p n), omega (arith, length-drop p nil))
consume_loop-HasTaken chunk r n p (b ∷ bs) t (is, (small, smalls), fits) =
    let size = length-drop p (b ++ copy_to bs) in
    let parts = length-append b (copy_to bs) in
    elim (Bool-cases (n == 0)) [
      | inl nothing ↦
          let zero_is = zero_of_test n nothing in
          rw nothing (
            ((is, (small, smalls), fits), ap (λ k. drop k (drop p (b ++ copy_to bs))) zero_is),
            omega (arith, zero_is),
          )
      | inr some_bytes ↦ elim (Bool-cases (ltb n (length b - p))) [
        | inl inside ↦
            rw (some_bytes, inside)
              (
                ((is, (small, smalls), ground arith), drop-add p n (b ++ copy_to bs)),
                ground (arith, size, parts),
              )
        | inr past ↦
            let ((valid', same), count) =
              consume_loop-HasTaken chunk (r + (length b - p)) (n - (length b - p)) 0 bs
                (popped bs t) (popped_lem bs t is, smalls, Fits-zero bs) in
            rw (some_bytes, past)
              (
                (valid', same ∙ past_front n p b (copy_to bs) fits (ground arith)),
                ground (arith, count, size, parts),
              )
      ]
    ]

-- Consume is for bytes of the first buffer.
pub consume_head-HasTaken :
    (chunk n p : ℕ) (bs : List Bytes) (t : Bool)
    → IsValid chunk (record { head = bs; has_tail = t; position = p })
    → 0 < n
    → n ≤ length (front p bs)
    → (g' : GrowingBuffer) × (consume_head n p bs t ≡ some g')
      × HasTaken chunk n (drop p (copy_to bs)) g'
unfolding consume_head front copy_to
consume_head-HasTaken chunk n p [] t valid pos le = absurd (omega arith)
consume_head-HasTaken chunk n p (b ∷ bs) t (is, (small, smalls), fits) pos le =
    let all = length-drop p b in
    elim (Bool-cases (leb (length b) (p + n))) [
      | inl whole ↦
          let gone : 0 ≡ n - (length b - p) = ground (arith, all) in
          rw (within (length b) (p + n) (omega (arith, all)), whole)
            (
              record { head = bs; has_tail = popped bs t; position = 0 },
              refl,
              (
                (popped_lem bs t is, smalls, Fits-zero bs),
                ap (λ k. drop k (copy_to bs)) gone
                    ∙ past_front n p b (copy_to bs) fits (ground arith),
              ),
            )
      | inr part ↦
          rw (within (length b) (p + n) (omega (arith, all)), part)
            (
              record { head = b ∷ bs; has_tail = t; position = p + n },
              refl,
              ((is, (small, smalls), ground arith), drop-add p n (b ++ copy_to bs)),
            )
    ]
