-- ===== src/Escape/Filter/Entity.antt =====
-- What one control character of the data becomes: the entity is sent or kept for the next call.
use cm4all_beng_proxy.Common.{
  ℕ, suc, ◌+◌, ◌≤◌, ◌<◌, ◌≡◌, ◌⊎◌, refl, sym, ap, ap₂, ◌∙◌, Bool, true, false, inl, inr, [], ◌∷◌,
  ◌++◌, Bytes, length, take, ltb, if◌then◌else◌, arith, Bool-cases, append_assoc, append-nil,
  length-append, take-append,
}
use cm4all_beng_proxy.Escape.{EscapeClass, IsEscapeClass}
use cm4all_beng_proxy.Escape.Filter.{Filter, send_escaped, Rounds, insert_entity, after_control}
use cm4all_beng_proxy.Escape.Filter.Sink.{Sent, send_escaped-Sent}

-- `count` bytes of `src` have been consumed; the sink has got, or `escaped` still holds, their escaped
-- text behind `out`.
pub record Consumed (cls : EscapeClass) (total : ℕ) (out src : Bytes) (r : ℕ × Filter)
    : Type 0 where
  pub count : ℕ
  pub bounded : count ≤ length src
  pub returned : r.0 ≡ total + count
  pub stream : r.1.output ++ r.1.escaped ≡ out ++ cls.escape (take count src)
  pub kept : (r.1.has_input ≡ true) × (r.1.destroyed ≡ false)

abbrev pub Forwarded : EscapeClass → ℕ → Bytes → Bytes → ℕ × Filter → Type 0
Forwarded cls total out src r = (r.1.destroyed ≡ true) ⊎ Consumed cls total out src r

pub unless_destroyed :
    (cls : EscapeClass) (total : ℕ) (out src : Bytes) (b : Bool) (x y : ℕ × Filter)
    → b ≡ false
    → Forwarded cls total out src y
    → Forwarded cls total out src (if b then x else y)
unless_destroyed cls total out src true x y e h = ground arith
unless_destroyed cls total out src false x y e h = h

-- The filter is alive and has nothing left to send.
pub record IsIdle (f : Filter) : Type 0 where
  pub input : f.has_input ≡ true
  pub alive : f.destroyed ≡ false
  pub empty : f.escaped ≡ []

abbrev pub IsNext : EscapeClass → ℕ → Rounds → Type 0
IsNext cls fuel next =
    (src : Bytes) (total : ℕ) (f : Filter)
    → length src < fuel
    → IsIdle f
    → Forwarded cls total f.output src (next src total f)

module _ (cls : EscapeClass) (laws : IsEscapeClass cls) where
  -- a part of a text without control characters has none
  pub plain_prefix : (a b : Bytes) → cls.escape (a ++ b) ≡ a ++ b → cls.escape a ≡ a
  plain_prefix a b h =
      let joined : cls.escape a ++ cls.escape b ≡ a ++ b = sym (laws.escape-append a b) ∙ h in
      let same : length (cls.escape a) ≡ length a = omega (
        arith,
        ap length joined,
        length-append (cls.escape a) (cls.escape b),
        length-append a b,
        laws.grows a,
        laws.grows b,
      ) in
      sym (take-append (cls.escape a) (cls.escape b)) ∙ ap₂ take same joined ∙ take-append a b

  one_more :
      (ch : ℕ) (rest : Bytes) (n : ℕ)
      → cls.escape (ch ∷ []) ≡ cls.escape_char ch
      → cls.escape (take (suc n) (ch ∷ rest)) ≡ cls.escape_char ch ++ cls.escape (take n rest)
  one_more ch rest n e =
      laws.escape-append (ch ∷ []) (take n rest) ∙ ap (λ s. s ++ cls.escape (take n rest)) e

  module _ (ch : ℕ) (rest : Bytes) (total : ℕ) (out : Bytes)
      (is : cls.escape (ch ∷ []) ≡ cls.escape_char ch) where
    only_control :
        (f : Filter)
        → f.output ++ f.escaped ≡ out ++ cls.escape_char ch
        → f.has_input ≡ true
        → f.destroyed ≡ false
        → Consumed cls total out (ch ∷ rest) (total + 1, f)
    only_control f s i d = record {
      count = 1;
      bounded = omega arith;
      returned = refl;
      stream =
          s
          ∙ ap (◌++◌ out) (
              sym (append-nil _)
              ∙ ap (◌++◌ (cls.escape_char ch)) (sym laws.escape-nil)
              ∙ sym (one_more ch rest 0 is));
      kept = (i, d);
    }

    insert_entity-Forwarded :
        (next : Rounds) (fuel : ℕ) (f : Filter) (r : Bool × Filter)
        → f.output ≡ out
        → f.escaped ≡ cls.escape_char ch
        → f.has_input ≡ true
        → IsNext cls fuel next
        → length rest < fuel
        → Sent f r
        → Forwarded cls total out (ch ∷ rest) (insert_entity next rest (total + 1) r)
    unfolding insert_entity
    insert_entity-Forwarded next fuel f (false, g) o e i ih lt s =
        unless_destroyed cls total out (ch ∷ rest) g.destroyed _ _ s.kept.1
          (inr (only_control g (rw (s.stream, o, e)) (s.kept.0 ∙ i) s.kept.1))
    insert_entity-Forwarded next fuel f (true, g) o e i ih lt s =
        elim (Bool-cases (ltb 0 (length rest))) [
          | inr last ↦ rw last (inr (only_control g (rw (s.stream, o, e)) (s.kept.0 ∙ i) s.kept.1))
          | inl more ↦
              let idle : IsIdle g = record {
                input = s.kept.0 ∙ i;
                alive = s.kept.1;
                empty = s.empty refl;
              } in
              rw more (later (next rest (total + 1) g) (ih rest (total + 1) g lt idle))
        ]
      where
        later :
            (r : ℕ × Filter)
            → Forwarded cls (total + 1) g.output rest r
            → Forwarded cls total out (ch ∷ rest) r
        later r (inl d) = inl d
        later r (inr c) = inr (record {
          count = suc c.count;
          bounded = omega (arith, c.bounded);
          returned = omega (arith, c.returned);
          stream =
              c.stream
              ∙ ap (λ p. p ++ cls.escape (take c.count rest))
                  (sym (append-nil g.output)
                    ∙ ap (◌++◌ g.output) (sym (s.empty refl))
                    ∙ s.stream
                    ∙ ap₂ ◌++◌ o e)
              ∙ append_assoc out (cls.escape_char ch) (cls.escape (take c.count rest))
              ∙ ap (◌++◌ out) (sym (one_more ch rest c.count is));
          kept = c.kept;
        })

  insert_destroyed :
      (next : Rounds) (rest : Bytes) (total : ℕ) (g : Filter)
      → g.destroyed ≡ true
      → (insert_entity next rest total (false, g)).1.destroyed ≡ true
  unfolding insert_entity
  insert_destroyed next rest total g d = ground arith

  -- the same from a filter that has nothing left to send
  pub after_control-Forwarded :
      (ch : ℕ) (rest : Bytes) (total : ℕ) (next : Rounds) (fuel : ℕ) (f : Filter)
      → cls.escape (ch ∷ []) ≡ cls.escape_char ch
      → IsIdle f
      → IsNext cls fuel next
      → length rest < fuel
      → Forwarded cls total f.output (ch ∷ rest) (after_control cls next (ch ∷ rest) total f)
  unfolding after_control
  after_control-Forwarded ch rest total next fuel f is idle ih lt =
      go (send_escaped f') (send_escaped-Sent f' idle.input idle.alive)
    where
      f' : Filter
      f' = record f { escaped = cls.escape_char ch }

      go :
          (r : Bool × Filter)
          → ((r.0 ≡ false) × (r.1.destroyed ≡ true)) ⊎ Sent f' r
          → Forwarded cls total f.output (ch ∷ rest) (insert_entity next rest (total + 1) r)
      go r (inr s) =
          insert_entity-Forwarded ch rest total f.output is next fuel f' r refl refl idle.input ih
            lt s
      go (false, g) (inl (_, d)) = inl (insert_destroyed next rest (total + 1) g d)
      go (true, g) (inl (e, d)) = ground arith
