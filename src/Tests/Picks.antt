-- ===== src/Tests/Picks.antt =====
-- The strategies of src/cluster at concrete inputs.
use cm4all_beng_proxy.Common.{ℕ, ◌%◌, ◌<◌, ◌≡◌, refl, true, false, Bool, some, ◌==◌, arith}
use cm4all_beng_proxy.Cluster.{
  Check, pick_failover, pick_modulo, RoundRobinBalancer, StickyMode, get, following, pick_generic,
}
use cm4all_beng_proxy.Cluster.First.{IsFirst}
use cm4all_beng_proxy.Cluster.Pick.{always, first_only, pick_modulo-IsFirst}
use cm4all_beng_proxy.Cluster.Rotate.{IsValid, get-IsFirst}
use cm4all_beng_proxy.Cluster.Generic.{pick_generic-IsGood}

-- Member 0 has failed, member 1 is fading, member 2 is well.
abbrev grade : Bool → Bool → Bool → Bool
grade true _ _ = false
grade false true fade = fade
grade false false fade = true

abbrev check : Check
check i fade = grade (i == 0) (i == 1) fade

check-tolerant : (i : ℕ) → check i false ≡ true → check i true ≡ true
check-tolerant i h = ground arith

abbrev at_two : RoundRobinBalancer
at_two = record { next = 2 }

at_two-IsValid : IsValid 3 at_two
at_two-IsValid = omega arith

fading_first : pick_failover check 3 ≡ 1
unfolding pick_failover
fading_first = refl

well_next : pick_modulo check 3 6 ≡ some 2
unfolding pick_modulo following
well_next = refl

pick_modulo-IsFirst_example :
    (r : ℕ) × (pick_modulo check 3 6 ≡ some r) × IsFirst 3 (6 % 3) (first_only check) r
pick_modulo-IsFirst_example = pick_modulo-IsFirst check 3 6 (omega arith)

get-IsFirst_example :
    (r : ℕ) × (get check 3 false at_two ≡ some (r, record { next = following 3 r }))
    × IsFirst 3 2 (always check false) r
get-IsFirst_example = get-IsFirst check 3 false at_two (omega arith) at_two-IsValid

abbrev all_well : Check
all_well i fade = true

all_well-true : (i : ℕ) → all_well i true ≡ true
all_well-true i = refl

pick_generic-IsGood_example :
    (r : ℕ) × (b' : RoundRobinBalancer) × (pick_generic check StickyMode.cookie 3 7 at_two
      ≡ some (r, b'))
    × (r < 3)
    × ((i : ℕ) → i < 3 → check i false ≡ true → check r true ≡ true)
    × IsValid 3 b'
pick_generic-IsGood_example =
    pick_generic-IsGood check check-tolerant StickyMode.cookie 3 7 at_two at_two-IsValid
