-- ===== src/Escape/Filter/Exact.antt =====
-- `OnData` of src/escape/Istream.cxx with any sink.
use cm4all_beng_proxy.Common.{
  ℕ, zero, suc, ◌+◌, ◌≤◌, ◌<◌, ◌≡◌, ◌⊎◌, refl, sym, ap, ap₂, ◌∙◌, Bool, true, false, Option, none,
  some, inl, inr, [], ◌∷◌, ◌++◌, Bytes, length, take, drop, ltb, arith, Bool-cases, append_assoc,
  append-nil, length-take, length-drop, take-append-drop, take-add, take-take,
}
use cm4all_beng_proxy.Escape.{EscapeClass, IsEscapeClass, IsFound}
use cm4all_beng_proxy.Escape.Filter.{
  Filter, invoke_data, is_nil, send_escaped, Rounds, after_portion, after_all, found_control,
  on_data_loop, on_data_after, on_data,
}
use cm4all_beng_proxy.Escape.Filter.Sink.{
  Taken, Invoked, Sent, take_all, invoke_data-Invoked, send_escaped-Sent, is_nil-true,
}
use cm4all_beng_proxy.Escape.Filter.Entity.{
  Consumed, Forwarded, unless_destroyed, IsIdle, IsNext, plain_prefix, after_control-Forwarded,
}

module _ (cls : EscapeClass) (laws : IsEscapeClass cls) where
  -- a first part of plain data, forwarded and empty of escapes
  plain_part :
      (f : Filter) (src : Bytes) (total k : ℕ) (r : ℕ × Filter)
      → IsIdle f
      → k ≤ length src
      → cls.escape (take k src) ≡ take k src
      → Taken f (take k src) r
      → Consumed cls total f.output src (total + r.0, r.1)
  plain_part f src total k r idle k_le same t = record {
    count = r.0;
    bounded = omega (arith, t.bounded, length-take k src);
    returned = refl;
    stream =
        ap₂ ◌++◌ t.output (t.kept.0 ∙ idle.empty)
        ∙ append-nil _
        ∙ ap (◌++◌ f.output) (take-take r.0 k src within ∙ sym clean);
    kept = (t.kept.1 ∙ idle.input, t.kept.2);
  }
    where
      within : r.0 ≤ k
      within = omega (arith, t.bounded, length-take k src)

      cut : take r.0 src ++ drop r.0 (take k src) ≡ take k src
      cut =
          ap (λ s. s ++ drop r.0 (take k src)) (sym (take-take r.0 k src within))
          ∙ take-append-drop r.0 (take k src)

      clean : cls.escape (take r.0 src) ≡ take r.0 src
      clean =
          plain_prefix cls laws (take r.0 src) (drop r.0 (take k src))
            (ap cls.escape cut ∙ same ∙ sym cut)

  after_all-Forwarded :
      (f : Filter) (src : Bytes) (total : ℕ) (r : ℕ × Filter)
      → IsIdle f
      → cls.escape src ≡ src
      → Invoked f src r
      → Forwarded cls total f.output src (after_all total r)
  unfolding after_all
  after_all-Forwarded f src total (n, g) idle same (inl (_, d)) = inl (ground arith)
  after_all-Forwarded f src total (n, g) idle same (inr t) =
      unless_destroyed cls total f.output src g.destroyed _ _ t.kept.2 (
        inr (
          plain_part f src total (length src) (n, g) idle (omega arith) (rw take_all same)
            (rw take_all t)))

  -- what is consumed behind `k` plain bytes
  behind_portion :
      (f g : Filter) (src : Bytes) (total k : ℕ) (r : ℕ × Filter)
      → k ≤ length src
      → cls.escape (take k src) ≡ take k src
      → g.output ≡ f.output ++ take k src
      → Forwarded cls (total + k) g.output (drop k src) r
      → Forwarded cls total f.output src r
  behind_portion f g src total k r k_le same o (inl d) = inl d
  behind_portion f g src total k r k_le same o (inr c) = inr (record {
    count = k + c.count;
    bounded = omega (arith, c.bounded, length-drop k src);
    returned = omega (arith, c.returned);
    stream =
        c.stream
        ∙ ap (λ p. p ++ cls.escape (take c.count (drop k src))) o
        ∙ append_assoc f.output (take k src) (cls.escape (take c.count (drop k src)))
        ∙ ap (◌++◌ f.output) (
            ap (λ p. p ++ cls.escape (take c.count (drop k src))) (sym same)
            ∙ sym (laws.escape-append (take k src) (take c.count (drop k src)))
            ∙ ap cls.escape (sym (take-add k c.count src)));
    kept = c.kept;
  })

  after_portion-Forwarded :
      (next : Rounds) (fuel : ℕ) (src : Bytes) (total k ch : ℕ) (rest : Bytes) (f : Filter)
      (r : ℕ × Filter)
      → IsIdle f
      → IsNext cls fuel next
      → length rest < fuel
      → drop k src ≡ ch ∷ rest
      → k ≤ length src
      → cls.escape (take k src) ≡ take k src
      → cls.escape (ch ∷ []) ≡ cls.escape_char ch
      → Invoked f (take k src) r
      → Forwarded cls total f.output src (after_portion cls next src k total r)
  unfolding after_portion
  after_portion-Forwarded next fuel src total k ch rest f (n, g) idle ih lt at k_le same one
        (inl (_, d)) =
      inl (ground arith)
  after_portion-Forwarded next fuel src total k ch rest f (n, g) idle ih lt at k_le same one
        (inr t) =
      unless_destroyed cls total f.output src g.destroyed _ _ t.kept.2
        (elim (Bool-cases (ltb n k)) [
          | inl short ↦ rw short (inr (plain_part f src total k (n, g) idle k_le same t))
          | inr full ↦
              let whole : n ≡ k = ground (arith, t.bounded, length-take k src) in
              let idle' : IsIdle g = record {
                input = t.kept.1 ∙ idle.input;
                alive = t.kept.2;
                empty = t.kept.0 ∙ idle.empty;
              } in
              rw (full, whole)
                (behind_portion f g src total k _ k_le same
                  (t.output
                    ∙ ap (◌++◌ f.output)
                        (ap (λ m. take m (take k src)) whole ∙ take-take k k src (omega arith)))
                  (rw at (
                    after_control-Forwarded cls laws ch rest (total + k) next fuel g one idle' ih
                      lt)))
        ])

  found_control-Forwarded :
      (next : Rounds) (fuel : ℕ) (src : Bytes) (total : ℕ) (f : Filter) (o : Option ℕ)
      → IsIdle f
      → IsNext cls fuel next
      → length src < suc fuel
      → IsFound cls src o
      → Forwarded cls total f.output src (found_control cls next src total f o)
  unfolding found_control
  found_control-Forwarded next fuel src total f none idle ih lt e =
      after_all-Forwarded f src total (invoke_data f src) idle e
        (invoke_data-Invoked f src idle.alive)
  found_control-Forwarded next fuel src total f (some zero) idle ih lt
        (ch, rest, at, k_lt, same, one, pos) =
      rw at (
        after_control-Forwarded cls laws ch rest total next fuel f one idle ih
          (omega (arith, ap length at)))
  found_control-Forwarded next fuel src total f (some (suc n)) idle ih lt
        (ch, rest, at, k_lt, same, one, pos) =
      after_portion-Forwarded next fuel src total (suc n) ch rest f
        (invoke_data f (take (suc n) src)) idle ih
        (omega (arith, ap length at, length-drop (suc n) src)) at (omega arith) same one
        (invoke_data-Invoked f (take (suc n) src) idle.alive)

  on_data_loop-IsNext : (fuel : ℕ) → IsNext cls fuel (on_data_loop cls fuel)
  unfolding on_data_loop
  on_data_loop-IsNext zero src total f lt idle = elim lt [ ]
  on_data_loop-IsNext (suc fuel) src total f lt idle =
      found_control-Forwarded (on_data_loop cls fuel) fuel src total f (cls.escape_find src) idle
        (on_data_loop-IsNext fuel) lt (laws.found src)

  -- the start of `OnData`: the sink got, or `escaped` holds, what was there before
  on_data_after-Forwarded :
      (src : Bytes) (out : Bytes) (r : Bool × Filter)
      → (r.0 ≡ true → r.1.escaped ≡ [])
      → r.1.has_input ≡ true
      → r.1.destroyed ≡ false
      → r.1.output ++ r.1.escaped ≡ out
      → Forwarded cls 0 out src (on_data_after cls src r)
  unfolding on_data_after
  on_data_after-Forwarded src out (false, g) e i d s = inr (record {
    count = 0;
    bounded = omega arith;
    returned = refl;
    stream = s ∙ sym (append-nil out) ∙ ap (◌++◌ out) (sym laws.escape-nil);
    kept = (i, d);
  })
  on_data_after-Forwarded src out (true, g) e i d s =
      let start : g.output ≡ out =
        sym (append-nil g.output) ∙ ap (◌++◌ g.output) (sym (e refl)) ∙ s in
      rw (← start) (
        on_data_loop-IsNext (suc (length src)) src 0 g (omega arith)
          (record { input = i; alive = d; empty = e refl }))

  -- With a class that keeps its laws, and whatever the sink takes at a time, one call of `OnData` on a live filter with an input either
  -- ends with the filter destroyed, or returns a number of bytes of the new data, no more than
  -- there are, whose escaped text has been appended to what the sink has got and `escaped` still
  -- holds: nothing is lost, repeated or left unescaped.
  pub on_data-Forwarded :
      (f : Filter) (src : Bytes)
      → f.has_input ≡ true
      → f.destroyed ≡ false
      → Forwarded cls 0 (f.output ++ f.escaped) src (on_data cls f src)
  unfolding on_data
  on_data-Forwarded f src i d = elim (Bool-cases (is_nil f.escaped)) [
    | inl e ↦ rw e (
        on_data_after-Forwarded src (f.output ++ f.escaped) (true, f) (λ _. is_nil-true f.escaped e)
          i d refl)
    | inr e ↦ rw e (pending (send_escaped f) (send_escaped-Sent f i d))
  ]
    where
      pending :
          (r : Bool × Filter)
          → ((r.0 ≡ false) × (r.1.destroyed ≡ true)) ⊎ Sent f r
          → Forwarded cls 0 (f.output ++ f.escaped) src (on_data_after cls src r)
      pending r (inr s) =
          on_data_after-Forwarded src (f.output ++ f.escaped) r s.empty (s.kept.0 ∙ i) s.kept.1
            s.stream
      pending (false, g) (inl (_, gone)) = inl (unfold on_data_after in gone)
      pending (true, g) (inl (e', gone)) = ground arith
