-- ===== src/Session/Manager/Purge.antt =====
-- `Purge` takes the sessions with the highest score, the first ones first.
use cm4all_beng_proxy.Common.{
  ℕ, zero, suc, ◌-◌, ◌≤◌, ◌≡◌, refl, sym, ap, ◌∙◌, true, false, List, [], ◌∷◌, ◌++◌, length, ltb,
  ◌==◌, if◌then◌else◌, arith, append_assoc, append-nil, length-append, Bool-cases, inl, inr,
  ==_refl, ==_iff,
}
use cm4all_beng_proxy.Session.{Session}
use cm4all_beng_proxy.Session.Attach.{get_purge_score}
use cm4all_beng_proxy.Session.Manager.{max_purge, Collected, keep_place, collect_one, collect}

-- The highest score, from `highest` on.
unfoldable pub max_score : ℕ → List Session → ℕ
max_score highest [] = highest
max_score highest (s ∷ ss) =
    max_score (if ltb highest (get_purge_score s) then get_purge_score s else highest) ss

-- What is left when the first `n` sessions with a score are taken away.
unfoldable pub without_best : ℕ → ℕ → List Session → List Session
without_best zero score ss = ss
without_best (suc n) score [] = []
without_best (suc n) score (s ∷ ss) =
    let rest = without_best n score ss in
    let later = without_best (suc n) score ss in
    if get_purge_score s == score then rest else s ∷ later

-- the places of these, counted from `place`
unfoldable pub places_of : ℕ → ℕ → ℕ → List Session → List ℕ
places_of place zero score ss = []
places_of place (suc n) score [] = []
places_of place (suc n) score (s ∷ ss) =
    let rest = places_of (suc place) n score ss in
    let later = places_of (suc place) (suc n) score ss in
    if get_purge_score s == score then place ∷ rest else later

pub max_score-le : (highest : ℕ) (ss : List Session) → highest ≤ max_score highest ss
unfolding max_score
max_score-le highest [] = omega arith
max_score-le highest (s ∷ ss) = ground (
  arith,
  max_score-le (if ltb highest (get_purge_score s) then get_purge_score s else highest) ss,
)

-- what remains of the places that were collected before
abbrev pub kept_places : List ℕ → ℕ → ℕ → List ℕ
kept_places places highest best = if highest == best then places else []

-- the places behind `place` are `r n` for each capacity `n`
abbrev with_place : ℕ → ℕ → ℕ → (ℕ → List ℕ) → ℕ → List ℕ
with_place place score best r zero = []
with_place place score best r (suc n) = if score == best then place ∷ r n else r (suc n)

with_place_other :
    (place score best n : ℕ) (r : ℕ → List ℕ)
    → r 0 ≡ []
    → (score == best) ≡ false
    → r n ≡ with_place place score best r n
with_place_other place score best zero r e other = e
with_place_other place score best (suc n) r e other = rw other refl

-- one session more, on the side of the vector and on the side of the list
abbrev pub all_places : List ℕ → ℕ → ℕ → (ℕ → List ℕ) → List ℕ
all_places places highest best r =
    let kept = kept_places places highest best in kept ++ r (max_purge - length kept)

module _ (place score best : ℕ) (r : ℕ → List ℕ) (r_zero : r 0 ≡ []) where
  new_best :
      (places : List ℕ) (highest : ℕ)
      → ltb highest score ≡ true
      → score ≤ best
      → all_places (place ∷ []) score best r
        ≡ all_places places highest best (with_place place score best r)
  new_best places highest up le =
      let below : (highest == best) ≡ false = ground arith in
      elim (Bool-cases (score == best)) [
        | inl is ↦ rw (below, is) refl
        | inr other ↦ rw (below, other) refl
      ]

  same_best :
      (places : List ℕ) (highest : ℕ)
      → score ≡ highest
      → ltb (length places) max_purge ≡ true
      → all_places (places ++ place ∷ []) highest best r
        ≡ all_places places highest best (with_place place score best r)
  same_best places highest e space =
      let turned : (highest == best) ≡ (score == best) = ap (λ x. x == best) (sym e) in
      elim (Bool-cases (score == best)) [
        | inl is ↦
            let more : max_purge - length places ≡ suc (max_purge - length (places ++ place ∷ [])) =
              ground (arith, length-append places (place ∷ [])) in
            rw (turned, is, more, is)
              (append_assoc places (place ∷ []) (r (max_purge - length (places ++ place ∷ []))))
        | inr other ↦ rw (turned, other, other) refl
      ]

  no_best :
      (places : List ℕ) (highest : ℕ)
      → (score == best) ≡ false
      → all_places places highest best r
        ≡ all_places places highest best (with_place place score best r)
  no_best places highest other =
      let kept = kept_places places highest best in
      ap (◌++◌ kept) (with_place_other place score best (max_purge - length kept) r r_zero other)

  full_best :
      (places : List ℕ) (highest : ℕ)
      → score ≡ highest
      → ltb (length places) max_purge ≡ false
      → all_places places highest best r
        ≡ all_places places highest best (with_place place score best r)
  full_best places highest e full = elim (Bool-cases (highest == best)) [
    | inl is ↦
        let none_left : max_purge - length places ≡ 0 = ground arith in
        rw (is, none_left) (ap (◌++◌ places) r_zero)
    | inr other ↦ no_best places highest (ap (λ x. x == best) e ∙ other)
  ]

with_place-places_of :
    (place best n : ℕ) (s : Session) (ss : List Session)
    → with_place place (get_purge_score s) best (λ k. places_of (suc place) k best ss) n
      ≡ places_of place n best (s ∷ ss)
unfolding places_of
with_place-places_of place best zero s ss = refl
with_place-places_of place best (suc n) s ss = refl

places_of_zero : (place best : ℕ) (ss : List Session) → places_of place 0 best ss ≡ []
unfolding places_of
places_of_zero place best ss = refl

places_of_nil : (place n best : ℕ) → places_of place n best [] ≡ []
unfolding places_of
places_of_nil place zero best = refl
places_of_nil place (suc n) best = refl

-- What the loop of Purge collects.
abbrev pub Collects : ℕ → List Session → List ℕ → ℕ → Collected → ℕ → Type 0
Collects place ss places highest c best =
    c ≡ (all_places places highest best (λ n. places_of place n best ss), best)

collect_more :
    (place best : ℕ) (s : Session) (ss : List Session) (places places' : List ℕ)
    (highest highest' : ℕ) (c : Collected)
    → Collects (suc place) ss places' highest' c best
    → all_places places' highest' best (λ n. places_of (suc place) n best ss)
      ≡ all_places places highest best
          (with_place place (get_purge_score s) best (λ n. places_of (suc place) n best ss))
    → Collects place (s ∷ ss) places highest c best
collect_more place best s ss places places' highest highest' c is same =
    let kept = kept_places places highest best in
    is
    ∙ ap (λ x. (x, best))
        (same ∙ ap (◌++◌ kept) (with_place-places_of place best (max_purge - length kept) s ss))

pub collect-Collects :
    (place : ℕ) (ss : List Session) (places : List ℕ) (highest : ℕ)
    → Collects place ss places highest (collect place ss (places, highest)) (max_score highest ss)
unfolding collect max_score collect_one keep_place
collect-Collects place [] places highest =
    ap (λ x. (x, highest))
      (rw (==_refl highest, places_of_nil place (max_purge - length places) highest)
        (sym (append-nil places)))
collect-Collects place (s ∷ ss) places highest =
    elim (Bool-cases (ltb highest (get_purge_score s))) [
      | inl up ↦
          let sc = get_purge_score s in
          let best = max_score sc ss in
          rw (up, ==_refl sc)
            (collect_more place best s ss places (place ∷ []) highest sc _
              (collect-Collects (suc place) ss (place ∷ []) sc)
              (new_best place sc best (λ n. places_of (suc place) n best ss)
                (places_of_zero (suc place) best ss) places highest up (max_score-le sc ss)))
      | inr down ↦
          let sc = get_purge_score s in
          let best = max_score highest ss in
          let above = max_score-le highest ss in
          elim (Bool-cases (sc == highest)) [
            | inl same ↦ elim (Bool-cases (ltb (length places) max_purge)) [
              | inl space ↦
                  rw (down, same, space)
                    (collect_more place best s ss places (places ++ place ∷ []) highest highest _
                      (collect-Collects (suc place) ss (places ++ place ∷ []) highest)
                      (same_best place sc best (λ n. places_of (suc place) n best ss)
                        (places_of_zero (suc place) best ss) places highest
                        ((==_iff sc highest).0 same) space))
              | inr full ↦
                  rw (down, same, full)
                    (collect_more place best s ss places places highest highest _
                      (collect-Collects (suc place) ss places highest)
                      (full_best place sc best (λ n. places_of (suc place) n best ss)
                        (places_of_zero (suc place) best ss) places highest
                        ((==_iff sc highest).0 same) full))
            ]
            | inr other ↦
                rw (down, other)
                  (collect_more place best s ss places places highest highest _
                    (collect-Collects (suc place) ss places highest)
                    (no_best place sc best (λ n. places_of (suc place) n best ss)
                      (places_of_zero (suc place) best ss) places highest (ground arith)))
          ]
    ]
