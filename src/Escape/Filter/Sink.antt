-- ===== src/Escape/Filter/Sink.antt =====
-- InvokeData() and `SendEscaped` of src/escape/Istream.cxx.
use cm4all_beng_proxy.Common.{
  ℕ, zero, suc, ◌≤◌, ◌≡◌, ◌⊎◌, refl, sym, ap, ◌∙◌, min, Bool, true, false, inl, inr, List, [], ◌∷◌,
  ◌++◌, Bytes, length, take, drop, arith, append_assoc, take-append-drop,
}
use cm4all_beng_proxy.Escape.Filter.{
  Answer, took, destroy, Filter, answer, invoke_data, is_nil, sent, send_escaped,
}

-- What InvokeData() does: the sink destroys the filter, or takes a first part of the data.
pub record Taken (f : Filter) (src : Bytes) (r : ℕ × Filter) : Type 0 where
  pub bounded : r.0 ≤ length src
  pub output : r.1.output ≡ f.output ++ take r.0 src
  pub kept : (r.1.escaped ≡ f.escaped) × (r.1.has_input ≡ f.has_input) × (r.1.destroyed ≡ false)

abbrev pub Invoked : Filter → Bytes → ℕ × Filter → Type 0
Invoked f src r = ((r.0 ≡ 0) × (r.1.destroyed ≡ true)) ⊎ Taken f src r

take-min : (n : ℕ) (s : Bytes) → take (min n (length s)) s ≡ take n s
take-min zero s = ap (λ k. take k s) (min_zero (length s))
  where
    min_zero : (b : ℕ) → min 0 b ≡ 0
    min_zero b = omega arith
take-min (suc n) [] = ap (λ k. take k []) (min_nil (suc n))
  where
    min_nil : (b : ℕ) → min b 0 ≡ 0
    min_nil b = omega arith
take-min (suc n) (c ∷ s) =
    ap (λ k. take k (c ∷ s)) (min_suc n (length s)) ∙ ap (◌∷◌ c) (take-min n s)
  where
    min_suc : (a b : ℕ) → min (suc a) (suc b) ≡ suc (min a b)
    min_suc a b = omega arith

pub take_all : (s : Bytes) → take (length s) s ≡ s
take_all [] = refl
take_all (c ∷ s) = ap (◌∷◌ c) (take_all s)

answer-Invoked :
    (f : Filter) (src : Bytes) (answers : List Answer)
    → f.destroyed ≡ false
    → Invoked f src (answer f src answers)
unfolding answer
answer-Invoked f src [] d = inr (record {
  bounded = omega arith;
  output = ap (◌++◌ f.output) (sym (take_all src));
  kept = (refl, refl, d);
})
answer-Invoked f src (took n ∷ rest) d = inr (record {
  bounded = omega arith;
  output = ap (◌++◌ f.output) (sym (take-min n src));
  kept = (refl, refl, d);
})
answer-Invoked f src (destroy ∷ rest) d = inl (refl, refl)

pub invoke_data-Invoked :
    (f : Filter) (src : Bytes) → f.destroyed ≡ false → Invoked f src (invoke_data f src)
unfolding invoke_data
invoke_data-Invoked f src d = answer-Invoked f src f.answers d

-- `SendEscaped` keeps what the sink has or is still to get, while there is an input; it returns
-- true only when nothing is left.
pub record Sent (f : Filter) (r : Bool × Filter) : Type 0 where
  pub stream : r.1.output ++ r.1.escaped ≡ f.output ++ f.escaped
  pub kept : (r.1.has_input ≡ f.has_input) × (r.1.destroyed ≡ false)
  pub empty : r.0 ≡ true → r.1.escaped ≡ []

pub is_nil-true : (s : Bytes) → is_nil s ≡ true → s ≡ []
unfolding is_nil
is_nil-true [] h = refl
is_nil-true (c ∷ s) h = ground arith

stream_drop :
    (f g : Filter) (n : ℕ)
    → Taken f f.escaped (n, g)
    → g.output ++ drop n g.escaped ≡ f.output ++ f.escaped
stream_drop f g n t =
    rw (t.output, t.kept.0)
      (append_assoc f.output (take n f.escaped) (drop n f.escaped)
        ∙ ap (◌++◌ f.output) (take-append-drop n f.escaped))

sent-Sent :
    (f : Filter) (r : ℕ × Filter) → f.has_input ≡ true → Taken f f.escaped r → Sent f (sent r.0 r.1)
unfolding sent
sent-Sent f (zero, g) i t = record {
  stream = stream_drop f g 0 t;
  kept = (t.kept.1, t.kept.2);
  empty = λ h. ground arith;
}
sent-Sent f (suc n, g) i t =
    ground (arith, stream_drop f g (suc n) t, is_nil-true (drop (suc n) g.escaped))

pub send_escaped-Sent :
    (f : Filter)
    → f.has_input ≡ true
    → f.destroyed ≡ false
    → (((send_escaped f).0 ≡ false) × ((send_escaped f).1.destroyed ≡ true))
      ⊎ Sent f (send_escaped f)
unfolding send_escaped
send_escaped-Sent f i d = go (invoke_data f f.escaped) (invoke_data-Invoked f f.escaped d)
  where
    go :
        (r : ℕ × Filter)
        → Invoked f f.escaped r
        → (((sent r.0 r.1).0 ≡ false) × ((sent r.0 r.1).1.destroyed ≡ true)) ⊎ Sent f (sent r.0 r.1)
    go r (inr t) = inr (sent-Sent f r i t)
    go (n, g) (inl (z, e)) = inl (unfold sent in rw z (refl, e))
