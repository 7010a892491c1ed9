-- ===== src/Session/Manager/Rounds.antt =====
-- The rounds of `Purge`: how many sessions go, and that there is an end.
use cm4all_beng_proxy.Common.{
  ℕ, zero, suc, ◌+◌, ◌-◌, ◌≤◌, ◌<◌, ◌≡◌, refl, ap, ◌∙◌, Bool, true, false, ◌&&◌, some, List, [],
  ◌∷◌, ◌++◌, length, ltb, ◌==◌, if◌then◌else◌, arith, Bool-cases, inl, inr, ◌⊎◌, ==_refl,
}
use cm4all_beng_proxy.Session.{Session}
use cm4all_beng_proxy.Session.Attach.{get_purge_score}
use cm4all_beng_proxy.Session.Manager.{
  max_purge, max_sessions, collect, contains_place, erase_places, purge_rounds, purge,
}
use cm4all_beng_proxy.Session.Manager.Purge.{
  max_score, max_score-le, without_best, places_of, collect-Collects,
}

contains_place-before :
    (q place n score : ℕ) (ss : List Session)
    → q < place
    → contains_place q (places_of place n score ss) ≡ false
unfolding contains_place places_of
contains_place-before q place zero score ss lt = refl
contains_place-before q place (suc n) score [] lt = refl
contains_place-before q place (suc n) score (s ∷ ss) lt =
    elim (Bool-cases (get_purge_score s == score)) [
      | inl is ↦
          let other : (q == place) ≡ false = ground arith in
          rw (is, other) (contains_place-before q (suc place) n score ss (omega arith))
      | inr other ↦ rw other (contains_place-before q (suc place) (suc n) score ss (omega arith))
    ]

erase_places-before :
    (q place : ℕ) (places : List ℕ) (ss : List Session)
    → q < place
    → erase_places (q ∷ places) place ss ≡ erase_places places place ss
unfolding erase_places contains_place
erase_places-before q place places [] lt = refl
erase_places-before q place places (s ∷ ss) lt =
    let other : (place == q) ≡ false = ground arith in
    rw (other, erase_places-before q (suc place) places ss (omega arith)) refl

erase_places_none : (place : ℕ) (ss : List Session) → erase_places [] place ss ≡ ss
unfolding erase_places contains_place
erase_places_none place [] = refl
erase_places_none place (s ∷ ss) = ap (◌∷◌ s) (erase_places_none (suc place) ss)

erase_places_empty : (places : List ℕ) (place : ℕ) → erase_places places place [] ≡ []
unfolding erase_places
erase_places_empty places place = refl

erase_here :
    (place : ℕ) (places : List ℕ) (s : Session) (ss : List Session)
    → erase_places (place ∷ places) place (s ∷ ss) ≡ erase_places (place ∷ places) (suc place) ss
unfolding erase_places contains_place
erase_here place places s ss = rw (==_refl place) refl

erase_not :
    (place : ℕ) (places : List ℕ) (s : Session) (ss : List Session)
    → contains_place place places ≡ false
    → erase_places places place (s ∷ ss) ≡ s ∷ erase_places places (suc place) ss
unfolding erase_places
erase_not place places s ss e = rw e refl

erase_places-places_of :
    (place n score : ℕ) (ss : List Session)
    → erase_places (places_of place n score ss) place ss ≡ without_best n score ss
unfolding places_of without_best
erase_places-places_of place zero score ss = erase_places_none place ss
erase_places-places_of place (suc n) score [] = erase_places_empty [] place
erase_places-places_of place (suc n) score (s ∷ ss) =
    elim (Bool-cases (get_purge_score s == score)) [
      | inl is ↦ rw is (
          erase_here place (places_of (suc place) n score ss) s ss
          ∙ erase_places-before place (suc place) (places_of (suc place) n score ss) ss
              (omega arith)
          ∙ erase_places-places_of (suc place) n score ss)
      | inr other ↦ rw other (
          erase_not place (places_of (suc place) (suc n) score ss) s ss
            (contains_place-before place (suc place) (suc n) score ss (omega arith))
          ∙ ap (◌∷◌ s) (erase_places-places_of (suc place) (suc n) score ss))
    ]

length-places_of :
    (place n score : ℕ) (ss : List Session)
    → length (places_of place n score ss) + length (without_best n score ss) ≡ length ss
unfolding places_of without_best
length-places_of place zero score ss = omega arith
length-places_of place (suc n) score [] = omega arith
length-places_of place (suc n) score (s ∷ ss) = elim (Bool-cases (get_purge_score s == score)) [
  | inl is ↦ rw is (omega (arith, length-places_of (suc place) n score ss))
  | inr other ↦ rw other (omega (arith, length-places_of (suc place) (suc n) score ss))
]

get_purge_score_positive : (s : Session) → 0 < get_purge_score s
unfolding get_purge_score
get_purge_score_positive s = ground arith

ap_lt : {a b c : ℕ} → b ≡ c → a < b → a < c
ap_lt e h = omega (arith, e, h)

-- a score above the first one is that of a session
best_there :
    (place n highest : ℕ) (ss : List Session)
    → highest < max_score highest ss
    → 0 < length (places_of place (suc n) (max_score highest ss) ss)
unfolding max_score places_of
best_there place n highest [] lt = absurd (omega arith)
best_there place n highest (s ∷ ss) lt = elim (Bool-cases (ltb highest (get_purge_score s))) [
  | inl up ↦
      let above = max_score-le (get_purge_score s) ss in
      rw up (elim (Bool-cases (get_purge_score s == max_score (get_purge_score s) ss)) [
        | inl is ↦ rw is (omega arith)
        | inr other ↦ rw other (best_there (suc place) n (get_purge_score s) ss (ground arith))
      ])
  | inr down ↦
      let more : highest < max_score highest ss = later down lt in
      rw down (elim (Bool-cases (get_purge_score s == max_score highest ss)) [
        | inl is ↦ rw is (omega arith)
        | inr other ↦ rw other (best_there (suc place) n highest ss more)
      ])
]
  where
    later :
        ltb highest (get_purge_score s) ≡ false
        → highest
          < max_score (if ltb highest (get_purge_score s) then get_purge_score s else highest) ss
        → highest < max_score highest ss
    later down h = ap_lt (ap (λ b. max_score (if b then get_purge_score s else highest) ss) down) h

-- One round: the first sessions with the highest score go, as many as the vector holds.
abbrev pub round : List Session → List Session
round ss = without_best max_purge (max_score 0 ss) ss

abbrev no_places : List ℕ
no_places = []

nothing_kept :
    (b : Bool) (best : ℕ) (ss : List Session)
    → (if b then no_places else no_places)
        ++ places_of 0 (max_purge - length (if b then no_places else no_places)) best ss
      ≡ places_of 0 max_purge best ss
nothing_kept true best ss = refl
nothing_kept false best ss = refl

collected-places_of :
    (ss : List Session) → (collect 0 ss ([], 0)).0 ≡ places_of 0 max_purge (max_score 0 ss) ss
collected-places_of ss =
    ap (λ c. c.0) (collect-Collects 0 ss [] 0)
    ∙ nothing_kept (0 == max_score 0 ss) (max_score 0 ss) ss

erased-round : (ss : List Session) → erase_places (collect 0 ss ([], 0)).0 0 ss ≡ round ss
erased-round ss =
    ap (λ places. erase_places places 0 ss) (collected-places_of ss)
    ∙ erase_places-places_of 0 max_purge (max_score 0 ss) ss

first_best : (s : Session) (ss : List Session) → 0 < max_score 0 (s ∷ ss)
unfolding max_score
first_best s ss =
    let up : ltb 0 (get_purge_score s) ≡ true = ground (arith, get_purge_score_positive s) in
    rw up (ground (arith, get_purge_score_positive s, max_score-le (get_purge_score s) ss))

-- a round takes a session at least, if there is one
taken :
    (s : Session) (ss : List Session)
    → (0 < length (collect 0 (s ∷ ss) ([], 0)).0)
      × (length (collect 0 (s ∷ ss) ([], 0)).0 + length (round (s ∷ ss)) ≡ length (s ∷ ss))
taken s ss =
    let n = ap length (collected-places_of (s ∷ ss)) in
    (
      omega (arith, n, best_there 0 255 0 (s ∷ ss) (first_best s ss)),
      omega (arith, n, length-places_of 0 max_purge (max_score 0 (s ∷ ss)) (s ∷ ss)),
    )

-- Rounds as long as one takes fewer than 16 sessions and leaves too many.
pub data Purged : List Session → List Session → Type 0 where
  last :
      (ss : List Session)
      → (length (round ss) + 16 ≤ length ss) ⊎ (length (round ss) ≤ max_sessions - 256)
      → Purged ss (round ss)
  again :
      {left : List Session} (ss : List Session)
      → length ss < length (round ss) + 16
      → max_sessions - 256 < length (round ss)
      → Purged (round ss) left
      → Purged ss left

rounds-Purged :
    (fuel : ℕ) (ss : List Session)
    → 0 < length ss
    → length ss < fuel
    → (left : List Session) × (purge_rounds fuel ss ≡ some (left, true)) × Purged ss left
unfolding purge_rounds
rounds-Purged zero ss pos lt = absurd (omega arith)
rounds-Purged (suc fuel) [] pos lt = absurd (omega arith)
rounds-Purged (suc fuel) (s ∷ ss) pos lt =
    let (one, sizes) = taken s ss in
    let n = length (collect 0 (s ∷ ss) ([], 0)).0 in
    let left = round (s ∷ ss) in
    let more : (n == 0) ≡ false = ground arith in
    rw (more, erased-round (s ∷ ss))
      (elim (Bool-cases (ltb n 16 && ltb (max_sessions - 256) (length left))) [
        | inl on ↦
            let few : n < 16 = ground arith in
            let many : max_sessions - 256 < length left = ground arith in
            let (rest, is, purged) = rounds-Purged fuel left (omega arith) (omega arith) in
            (rest, rw (on, is) refl, again (s ∷ ss) (omega arith) many purged)
        | inr off ↦
            (left, rw off refl, last (s ∷ ss) (stopped n (length left) (length (s ∷ ss)) off sizes))
      ])
  where
    stopped :
        (n left all : ℕ)
        → (ltb n 16 && ltb (max_sessions - 256) left) ≡ false
        → n + left ≡ all
        → (left + 16 ≤ all) ⊎ (left ≤ max_sessions - 256)
    stopped n left all off sizes = elim (Bool-cases (ltb n 16)) [
      | inl few ↦ inr (ground arith)
      | inr many ↦ inl (ground arith)
    ]

-- Purge on a manager that has a session comes to an end and says that it has purged. Each round takes
-- the first 256 sessions with the highest score, in the order of the set, or all of them if there are
-- fewer, and no other. There is a further round exactly as long as one takes fewer than 16 sessions
-- and leaves more than 65280.
pub purge-Purged :
    (ss : List Session)
    → 0 < length ss
    → (left : List Session) × (purge ss ≡ some (left, true)) × Purged ss left
unfolding purge
purge-Purged ss pos = rounds-Purged (suc (length ss)) ss pos (omega arith)
