-- ===== src/Session/Manager.antt =====
-- bp/session/Manager.cxx: how a manager gets rid of sessions. The set of its sessions is the list of
-- them in the order in which for_each visits them, and a reference to a session is its place there.
pub mod Purge
pub mod Rounds
use cm4all_beng_proxy.Common.{
  ℕ, zero, suc, ◌+◌, ◌-◌, Bool, true, false, ◌&&◌, ◌||◌, not, Option, none, some, List, [], ◌∷◌,
  ◌++◌, length, ltb, leb, ◌==◌, if◌then◌else◌,
}
use cm4all_beng_proxy.Session.{Session}
use cm4all_beng_proxy.Session.Attach.{get_purge_score}

abbrev pub max_sessions : ℕ
max_sessions = 65536

-- the capacity of `purge_sessions`
abbrev pub max_purge : ℕ
max_purge = 256

-- `purge_sessions` and `highest_score`
abbrev pub Collected : Type 0
Collected = List ℕ × ℕ

-- `emplace_back`, unless the vector is full
unfoldable pub keep_place : ℕ → ℕ → Collected → Collected
keep_place place score (places, highest) =
    if score == highest && ltb (length places) max_purge
    then (places ++ place ∷ [], highest)
    else (places, highest)

unfoldable pub collect_one : ℕ → ℕ → Collected → Collected
unfolding keep_place
collect_one place score (places, highest) =
    keep_place place score (if ltb highest score then ([], score) else (places, highest))

unfoldable pub collect : ℕ → List Session → Collected → Collected
unfolding collect_one
collect place [] c = c
collect place (s ∷ ss) c = collect (suc place) ss (collect_one place (get_purge_score s) c)

unfoldable pub contains_place : ℕ → List ℕ → Bool
contains_place place [] = false
contains_place place (p ∷ ps) = place == p || contains_place place ps

-- `EraseAndDispose` of each of the places
unfoldable pub erase_places : List ℕ → ℕ → List Session → List Session
unfolding contains_place
erase_places places place [] = []
erase_places places place (s ∷ ss) =
    let rest = erase_places places (suc place) ss in
    if contains_place place places then rest else s ∷ rest

-- The rounds of `Purge`; `none` means that the fuel is used up.
unfoldable pub purge_rounds : ℕ → List Session → Option (List Session × Bool)
unfolding collect erase_places
purge_rounds zero sessions = none
purge_rounds (suc fuel) sessions =
    let places = (collect 0 sessions ([], 0)).0 in
    let left = erase_places places 0 sessions in
    let again = purge_rounds fuel left in
    if length places == 0
    then some (sessions, false)
    else if ltb (length places) 16 && ltb (max_sessions - 256) (length left)
    then elim again [ none ↦ none | some (rest, any) ↦ some (rest, true) ]
    else some (left, true)

-- A round that goes on takes a session at least.
unfoldable pub purge : List Session → Option (List Session × Bool)
unfolding purge_rounds
purge sessions = purge_rounds (suc (length sessions)) sessions

-- what `Cleanup` leaves; `is_expired` is IsExpired() at the time of the call
unfoldable pub cleanup : (ℕ → Bool) → List Session → List Session
cleanup is_expired [] = []
cleanup is_expired (s ∷ ss) =
    let rest = cleanup is_expired ss in if is_expired s.expires then rest else s ∷ rest
