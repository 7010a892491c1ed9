-- ===== src/Escape/Html/Shrink.antt =====
-- src/escape/HTML.cxx: the length of what `html_unescape` writes.
use cm4all_beng_proxy.Common.{
  ℕ, zero, suc, ◌+◌, ◌≤◌, ◌<◌, ◌≡◌, refl, ap, ◌∙◌, Option, none, some, inl, inr, [], ◌∷◌, ◌++◌,
  Bytes, length, arith, length-append, break_at,
}
use cm4all_beng_proxy.Escape.Html.{
  Libcommon, IsLibcommon, parse_numeric_entity, numeric_text, other_text, entity_text, replace_by,
  replace_entity, after_ampersand, unescape_round, unescape_loop, html_unescape,
}

module _ (l : Libcommon) (lib : IsLibcommon l) where
  abbrev Fits : Bytes → Option Bytes → Type 0
  Fits entity none = Unit
  Fits entity (some text) = length text ≤ length entity + 2

  numeric_text-Fits : (ch : ℕ) (entity : Bytes) → Fits (ch ∷ entity) (numeric_text l entity)
  unfolding numeric_text
  numeric_text-Fits ch [] = tt
  numeric_text-Fits ch (d ∷ entity) =
      ground (arith, lib.utf8_short (parse_numeric_entity l (d ∷ entity)).0)

  other_text-Fits : (entity : Bytes) → Fits entity (other_text l entity)
  unfolding other_text
  other_text-Fits [] = tt
  other_text-Fits (ch ∷ entity) = ground (arith, numeric_text-Fits ch entity)

  entity_text-Fits : (entity : Bytes) → Fits entity (entity_text l entity)
  unfolding entity_text
  entity_text-Fits entity = ground (arith, other_text-Fits entity)

  -- What is written for an ampersand and what is left are no longer than the source with it.
  abbrev Shorter : Bytes → Bytes × Bytes → Type 0
  Shorter src r = (length r.0 + length r.1 ≤ length src + 1) × (length r.1 ≤ length src)

  replace_by-Shorter :
      (entity rest : Bytes) (o : Option Bytes)
      → Fits entity o
      → Shorter (entity ++ b';' ∷ rest) (replace_by l (entity ++ b';' ∷ rest) rest o)
  unfolding replace_by
  replace_by-Shorter entity rest none h = (omega arith, omega arith)
  replace_by-Shorter entity rest (some text) h = rw length-append (omega arith, omega arith)

  after_ampersand-Shorter : (src : Bytes) → Shorter src (after_ampersand l src)
  unfolding after_ampersand replace_entity
  after_ampersand-Shorter src = elim (break_at b';' src) [
    | inl lacks ↦ rw (lib.split_missing b';' src lacks) (omega arith, omega arith)
    | inr (entity, rest, lacks, e) ↦
        rw (e, lib.split_found b';' entity rest lacks)
          (replace_by-Shorter entity rest (entity_text l entity) (entity_text-Fits entity))
  ]

  -- An output no longer than `n`.
  abbrev Bounded : ℕ → Option Bytes → Type 0
  Bounded n o = (out : Bytes) × (o ≡ some out) × (length out ≤ n)

  unescape_loop-Bounded :
      (fuel : ℕ) (src q : Bytes)
      → length src < fuel
      → Bounded (length q + length src) (unescape_loop l fuel src q)
  unfolding unescape_loop unescape_round
  unescape_loop-Bounded zero src q h = elim h [ ]
  unescape_loop-Bounded (suc fuel) src q h = elim (break_at b'&' src) [
    | inl lacks ↦
        rw (lib.split_missing b'&' src lacks) (q ++ src, refl, omega (arith, length-append q src))
    | inr (before, rest, lacks, e) ↦
        let r = after_ampersand l rest in
        let (short, less) = after_ampersand-Shorter rest in
        let size : length src ≡ length before + suc (length rest) =
          ap length e ∙ length-append before (b'&' ∷ rest) in
        let written : length (q ++ (before ++ r.0)) ≡ length q + (length before + length r.0) =
          omega (arith, length-append q (before ++ r.0), length-append before r.0) in
        let (out, run, bound) =
          unescape_loop-Bounded fuel r.1 (q ++ (before ++ r.0)) (omega arith) in
        (out, rw (e, lib.split_found b'&' before rest lacks) run, omega arith)
  ]

  -- If libcommon's functions behave as documented, `html_unescape` comes to an end, and its output
  -- is no longer than its input.
  pub html_unescape-Bounded :
      (src : Bytes) → (out : Bytes) × (html_unescape l src ≡ some out) × (length out ≤ length src)
  unfolding html_unescape
  html_unescape-Bounded src =
      let (out, run, bound) = unescape_loop-Bounded (suc (length src)) src [] (omega arith) in
      (out, run, omega arith)
