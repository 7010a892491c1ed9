-- ===== src/Escape/Html/RoundTrip.antt =====
-- src/escape/HTML.cxx: `html_unescape` on the output of `html_escape`.
use cm4all_beng_proxy.Common.{
  ℕ, zero, suc, ◌<◌, ◌≡◌, ◌≢◌, ◌⊎◌, refl, sym, ap, ◌∙◌, some, inl, inr, [], ◌∷◌, ◌++◌, Bytes,
  length, arith, Bool-cases, append_assoc, codes, Lacks, All-append, break_at, ◌==◌, ==_iff,
}
use cm4all_beng_proxy.Escape.Html.{
  Libcommon, IsLibcommon, same, entity_text, replace_by, replace_entity, after_ampersand,
  unescape_round, unescape_loop, html_escape, html_escape_byte,
}

module _ (l : Libcommon) (lib : IsLibcommon l) where
  -- Text without an ampersand is copied.
  loop_plain :
      (fuel : ℕ) (a x q : Bytes)
      → Lacks b'&' a
      → unescape_loop l (suc fuel) (a ++ x) q ≡ unescape_loop l (suc fuel) x (q ++ a)
  unfolding unescape_loop unescape_round
  loop_plain fuel a x q plain = elim (break_at b'&' x) [
    | inl lacks ↦
        rw
          (
            lib.split_missing b'&' x lacks,
            lib.split_missing b'&' (a ++ x) (All-append _ a x plain lacks),
          )
          (ap some (sym (append_assoc q a x)))
    | inr (before, rest, lacks, e) ↦
        let whole : a ++ x ≡ (a ++ before) ++ b'&' ∷ rest =
          ap (◌++◌ a) e ∙ sym (append_assoc a before (b'&' ∷ rest)) in
        rw (whole, lib.split_found b'&' (a ++ before) rest (All-append _ a before plain lacks))
          (rw (e, lib.split_found b'&' before rest lacks)
            (ap (unescape_loop l fuel (after_ampersand l rest).1) (simp append_assoc)))
  ]

  loop_entity :
      (fuel : ℕ) (entity x q text : Bytes)
      → Lacks b';' entity
      → entity_text l entity ≡ some text
      → unescape_loop l (suc fuel) (b'&' ∷ (entity ++ b';' ∷ x)) q
        ≡ unescape_loop l fuel x (q ++ text)
  unfolding unescape_loop unescape_round after_ampersand replace_entity replace_by
  loop_entity fuel entity x q text plain is =
      rw (lib.split_found b'&' [] (entity ++ b';' ∷ x) tt)
        (rw (lib.split_found b';' entity x plain) (rw is refl))

  -- A byte is written as an entity that stands for it, or as itself.
  abbrev Marked : ℕ → Type 0
  Marked c =
      ((entity : Bytes) × Lacks b';' entity
        × (html_escape_byte c ≡ b'&' ∷ (entity ++ b';' ∷ []))
        × (entity_text l entity ≡ some (c ∷ [])))
      ⊎ ((html_escape_byte c ≡ c ∷ []) × (c ≢ b'&'))

  html_escape_byte-Marked : (c : ℕ) → Marked c
  unfolding html_escape_byte entity_text same
  html_escape_byte-Marked c = elim (Bool-cases (c == b'&')) [
    | inl e0 ↦
        let is : c ≡ b'&' = (==_iff c b'&').0 e0 in
        rw is (inl (codes "amp", omega arith, refl, refl))
    | inr e0 ↦ elim (Bool-cases (c == b'"')) [
      | inl e1 ↦
          let is : c ≡ b'"' = (==_iff c b'"').0 e1 in
          rw is (inl (codes "quot", omega arith, refl, refl))
      | inr e1 ↦ elim (Bool-cases (c == b'\'')) [
        | inl e2 ↦
            let is : c ≡ b'\'' = (==_iff c b'\'').0 e2 in
            rw is (inl (codes "apos", omega arith, refl, refl))
        | inr e2 ↦ elim (Bool-cases (c == b'<')) [
          | inl e3 ↦
              let is : c ≡ b'<' = (==_iff c b'<').0 e3 in
              rw is (inl (codes "lt", omega arith, refl, refl))
          | inr e3 ↦ elim (Bool-cases (c == b'>')) [
            | inl e4 ↦
                let is : c ≡ b'>' = (==_iff c b'>').0 e4 in
                rw is (inl (codes "gt", omega arith, refl, refl))
            | inr e4 ↦ inr (rw (e0, e1, e2, e3, e4) refl, ground arith)
          ]
        ]
      ]
    ]
  ]

  pub loop_escape :
      (fuel : ℕ) (s q : Bytes)
      → length s < fuel
      → unescape_loop l fuel (html_escape s) q ≡ some (q ++ s)
  unfolding html_escape html_escape_byte
  loop_escape zero s q h = elim h [ ]
  loop_escape (suc fuel) [] q h =
      unfold unescape_loop unescape_round in rw (lib.split_missing b'&' [] tt) refl
  loop_escape (suc fuel) (c ∷ s) q h = elim (html_escape_byte-Marked c) [
    | inl (entity, lacks, e, is) ↦
        ap (λ b. unescape_loop l (suc fuel) (b ++ html_escape s) q) e
        ∙ ap (λ b. unescape_loop l (suc fuel) (b'&' ∷ b) q)
            (append_assoc entity (b';' ∷ []) (html_escape s))
        ∙ loop_entity fuel entity (html_escape s) q (c ∷ []) lacks is
        ∙ loop_escape fuel s (q ++ c ∷ []) (omega arith)
        ∙ ap some (append_assoc q (c ∷ []) s)
    | inr (e, plain) ↦
        ap (λ b. unescape_loop l (suc fuel) (b ++ html_escape s) q) e
        ∙ loop_plain fuel (c ∷ []) (html_escape s) q (plain, tt)
        ∙ loop_escape (suc fuel) s (q ++ c ∷ []) (omega arith)
        ∙ ap some (append_assoc q (c ∷ []) s)
  ]
