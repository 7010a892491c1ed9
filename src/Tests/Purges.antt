-- ===== src/Tests/Purges.antt =====
-- A manager of three sessions: two without a user, and one whose cookie has not come back.
use cm4all_beng_proxy.Common.{◌≡◌, refl, true, false, some, List, [], ◌∷◌, arith}
use cm4all_beng_proxy.Session.{Session}
use cm4all_beng_proxy.Session.Attach.{get_purge_score}
use cm4all_beng_proxy.Session.Manager.{collect, erase_places, purge, contains_place}
use cm4all_beng_proxy.Session.Manager.Rounds.{Purged, purge-Purged}
use cm4all_beng_proxy.Tests.Sessions.{session, old_session}

abbrev new_session : Session
new_session = record old_session { cookie_received = false }

abbrev sessions : List Session
sessions = session ∷ new_session ∷ old_session ∷ []

purge-Purged_example :
    (left : List Session) × (purge sessions ≡ some (left, true)) × Purged sessions left
purge-Purged_example = purge-Purged sessions (omega arith)

new_one_first : purge sessions ≡ some (session ∷ old_session ∷ [], true)
unfolding purge collect erase_places contains_place get_purge_score
new_one_first = refl
