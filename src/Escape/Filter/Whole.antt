-- ===== src/Escape/Filter/Whole.antt =====
-- The escaping istream (src/escape/Istream.cxx) with a sink that takes everything.
use cm4all_beng_proxy.Common.{
  ℕ, zero, suc, ◌+◌, ◌<◌, ◌≡◌, refl, sym, ap, ap₂, ◌∙◌, true, false, Option, none, some, [], ◌∷◌,
  ◌++◌, Bytes, length, take, drop, ltb, lt→ltb, ◌==◌, arith, append_assoc, append-nil, length-take,
  length-drop, take-append-drop,
}
use cm4all_beng_proxy.Escape.{EscapeClass, IsEscapeClass, IsFound}
use cm4all_beng_proxy.Escape.Filter.{
  Filter, invoke_data, is_nil, send_escaped, sent, Rounds, insert_entity, after_control,
  after_portion, after_all, found_control, on_data_loop, on_data_after, on_data, answer,
}

-- A live filter with an input whose sink takes everything.
abbrev pub eager : Bytes → Bytes → Filter
eager out escaped = record {
  escaped = escaped;
  has_input = true;
  output = out;
  destroyed = false;
  answers = [];
}

drop_whole : (s : Bytes) → drop (length s) s ≡ []
drop_whole [] = refl
drop_whole (c ∷ s) = drop_whole s

invoke_eager :
    (out escaped src : Bytes)
    → invoke_data (eager out escaped) src ≡ (length src, eager (out ++ src) escaped)
unfolding invoke_data answer
invoke_eager out escaped src = refl

send_eager :
    (out s : Bytes) → 0 < length s → send_escaped (eager out s) ≡ (true, eager (out ++ s) [])
unfolding send_escaped sent invoke_data answer is_nil
send_eager out [] h = absurd (omega arith)
send_eager out (c ∷ s) h =
    let more : (suc (length s) == 0) ≡ false = ground arith in rw (drop_whole (c ∷ s), more) refl

-- The rounds to come send the whole rest.
abbrev IsWhole : EscapeClass → ℕ → Rounds → Type 0
IsWhole cls fuel next =
    (src : Bytes) (total : ℕ) (out : Bytes)
    → length src < fuel
    → next src total (eager out []) ≡ (total + length src, eager (out ++ cls.escape src) [])

module _ (cls : EscapeClass) (laws : IsEscapeClass cls) where
  escape_first :
      (ch : ℕ) (rest out : Bytes)
      → cls.escape (ch ∷ []) ≡ cls.escape_char ch
      → (out ++ cls.escape_char ch) ++ cls.escape rest ≡ out ++ cls.escape (ch ∷ rest)
  escape_first ch rest out e =
      append_assoc out (cls.escape_char ch) (cls.escape rest)
      ∙ ap (◌++◌ out)
          (ap (λ s. s ++ cls.escape rest) (sym e) ∙ sym (laws.escape-append (ch ∷ []) rest))

  insert_eager :
      (next : Rounds) (fuel : ℕ) (rest : Bytes) (total : ℕ) (out : Bytes)
      → IsWhole cls fuel next
      → length rest < fuel
      → insert_entity next rest total (true, eager out [])
        ≡ (total + length rest, eager (out ++ cls.escape rest) [])
  unfolding insert_entity
  insert_eager next fuel [] total out ih lt =
      rw (laws.escape-nil, append-nil out) (ap (λ n. (n, eager out [])) (omega arith))
  insert_eager next fuel (c ∷ rest) total out ih lt =
      rw (lt→ltb 0 (suc (length rest)) (omega arith)) (ih (c ∷ rest) total out lt)

  control_eager :
      (next : Rounds) (fuel : ℕ) (ch : ℕ) (rest : Bytes) (total : ℕ) (out : Bytes)
      → cls.escape (ch ∷ []) ≡ cls.escape_char ch
      → 0 < length (cls.escape_char ch)
      → IsWhole cls fuel next
      → length rest < fuel
      → after_control cls next (ch ∷ rest) total (eager out [])
        ≡ (total + suc (length rest), eager (out ++ cls.escape (ch ∷ rest)) [])
  unfolding after_control
  control_eager next fuel ch rest total out e pos ih lt =
      ap (insert_entity next rest (total + 1)) (send_eager out (cls.escape_char ch) pos)
      ∙ insert_eager next fuel rest (total + 1) (out ++ cls.escape_char ch) ih lt
      ∙ ap₂ (λ n s. (n, eager s [])) (omega arith) (escape_first ch rest out e)

  portion_eager :
      (next : Rounds) (fuel : ℕ) (src : Bytes) (total : ℕ) (out : Bytes) (k ch : ℕ) (rest : Bytes)
      → drop k src ≡ ch ∷ rest
      → k < length src
      → cls.escape (take k src) ≡ take k src
      → cls.escape (ch ∷ []) ≡ cls.escape_char ch
      → 0 < length (cls.escape_char ch)
      → IsWhole cls fuel next
      → length rest < fuel
      → after_portion cls next src k total (length (take k src), eager (out ++ take k src) [])
        ≡ (total + length src, eager (out ++ cls.escape src) [])
  unfolding after_portion
  portion_eager next fuel src total out k ch rest at k_lt same one pos ih lt =
      let whole : length (take k src) ≡ k = omega (arith, length-take k src) in
      rw (whole, ltb_irrefl k, at)
        (control_eager next fuel ch rest (total + k) (out ++ take k src) one pos ih lt
          ∙ ap₂ (λ n s. (n, eager s [])) (omega (arith, ap length at, length-drop k src))
              (append_assoc out (take k src) (cls.escape (ch ∷ rest)) ∙ ap (◌++◌ out) joined))
    where
      ltb_irrefl : (n : ℕ) → ltb n n ≡ false
      ltb_irrefl n = ground arith

      joined : take k src ++ cls.escape (ch ∷ rest) ≡ cls.escape src
      joined =
          ap (λ s. s ++ cls.escape (ch ∷ rest)) (sym same)
          ∙ sym (laws.escape-append (take k src) (ch ∷ rest))
          ∙ ap cls.escape (ap (◌++◌ (take k src)) (sym at) ∙ take-append-drop k src)

  found_eager :
      (next : Rounds) (fuel : ℕ) (src : Bytes) (total : ℕ) (out : Bytes) (o : Option ℕ)
      → IsWhole cls fuel next
      → length src < suc fuel
      → IsFound cls src o
      → found_control cls next src total (eager out []) o
        ≡ (total + length src, eager (out ++ cls.escape src) [])
  unfolding found_control after_all
  found_eager next fuel src total out none ih lt e = rw (invoke_eager out [] src, e) refl
  found_eager next fuel src total out (some zero) ih lt (ch, rest, at, k_lt, same, one, pos) =
      rw at (control_eager next fuel ch rest total out one pos ih (omega (arith, ap length at)))
  found_eager next fuel src total out (some (suc n)) ih lt (ch, rest, at, k_lt, same, one, pos) =
      rw (invoke_eager out [] (take (suc n) src)) (
        portion_eager next fuel src total out (suc n) ch rest at k_lt same one pos ih
          (omega (arith, ap length at, length-drop (suc n) src)))

  loop_eager : (fuel : ℕ) → IsWhole cls fuel (on_data_loop cls fuel)
  unfolding on_data_loop
  loop_eager zero src total out lt = absurd (omega arith)
  loop_eager (suc fuel) src total out lt =
      found_eager (on_data_loop cls fuel) fuel src total out (cls.escape_find src) (loop_eager fuel)
        lt (laws.found src)

  start_eager :
      (out src : Bytes)
      → on_data_after cls src (true, eager out []) ≡ (length src, eager (out ++ cls.escape src) [])
  unfolding on_data_after
  start_eager out src =
      loop_eager (suc (length src)) src 0 out (omega arith)
      ∙ ap (λ n. (n, eager (out ++ cls.escape src) [])) (omega arith)

  -- With a class that keeps its laws, and a sink that takes everything, one call of `OnData`
  -- consumes all of the new data: the sink gets what was left of an escape, then the escaped text
  -- of the data, and nothing is left to send.
  pub on_data-whole :
      (out escaped src : Bytes)
      → on_data cls (eager out escaped) src
        ≡ (length src, eager ((out ++ escaped) ++ cls.escape src) [])
  unfolding on_data is_nil
  on_data-whole out [] src = rw (append-nil out) (start_eager out src)
  on_data-whole out (c ∷ s) src =
      ap (on_data_after cls src) (send_eager out (c ∷ s) (omega arith))
      ∙ start_eager (out ++ c ∷ s) src
