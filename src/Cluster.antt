-- ===== src/Cluster.antt =====
-- src/cluster: how a member of a cluster is picked (PickFailover.hxx, PickModulo.hxx,
-- RoundRobinBalancer.cxx, PickGeneric.hxx, StickyMode.hxx). A member is its index in the list, and
-- `check i allow_fade` is `list.Check(now, list[i], allow_fade)` at the time of the call.
pub mod First
pub mod Pick
pub mod Rotate
pub mod Generic
use cm4all_beng_proxy.Common.{
  ℕ, zero, suc, ◌+◌, ◌%◌, ◌^◌, Bool, true, false, Option, none, some, ltb, leb, ◌>>=◌, ◌==◌,
  if◌then◌else◌,
}

abbrev pub Check : Type 0
Check = ℕ → Bool → Bool

-- The loop of `PickFailover`, with `left` members to go from `i` on.
failover_loop : Check → ℕ → ℕ → ℕ
failover_loop check zero i = 0
failover_loop check (suc left) i =
    let rest = failover_loop check left (i + 1) in if check i true then i else rest

unfoldable pub pick_failover : Check → ℕ → ℕ
unfolding failover_loop
pick_failover check n = failover_loop check n 0

-- `++i; if (i == end) i = begin`
unfoldable pub following : ℕ → ℕ → ℕ
following n i = if i + 1 == n then 0 else i + 1

-- The loop of `PickModulo`; a round checks the member `i`. It stops where it comes back to
-- `selected`, and `none` means that the fuel is used up. In the functions below it is also an
-- assertion that fails.
modulo_loop : Check → ℕ → ℕ → ℕ → ℕ → Bool → Option ℕ
modulo_loop check n selected zero i allow_fade = none
modulo_loop check n selected (suc fuel) i allow_fade =
    let i' = following n i in
    let rest = modulo_loop check n selected fuel i' false in
    if check i allow_fade then some i else if i' == selected then some i' else rest

unfoldable pub pick_modulo : Check → ℕ → ℕ → Option ℕ
unfolding modulo_loop
pick_modulo check n sticky_hash =
    let selected = sticky_hash % n in
    let picked = modulo_loop check n selected n selected true in if ltb n 2 then none else picked

-- `next` is a 32-bit unsigned.
pub record RoundRobinBalancer : Type 0 where
  pub next : ℕ

abbrev pub unsigned_mod : ℕ
unsigned_mod = 2 ^ 32

unfoldable pub reset : RoundRobinBalancer → RoundRobinBalancer
reset b = record { next = 0 }

-- `Next`: the member that `next` names, and the balancer that names the one behind it.
unfoldable pub next_member : ℕ → RoundRobinBalancer → Option (ℕ × RoundRobinBalancer)
next_member n b =
    let next = (b.next + 1) % unsigned_mod in
    if ltb n 2
    then none
    else if ltb b.next n
    then some (b.next, record { next = if leb n next then 0 else next })
    else none

-- The loop of `Get`; a round checks the member `ret`.
get_loop : Check → ℕ → Bool → ℕ → ℕ → ℕ → RoundRobinBalancer → Option (ℕ × RoundRobinBalancer)
get_loop check n allow_fade first zero ret b = none
get_loop check n allow_fade first (suc fuel) ret b =
    let rest = λ (p : ℕ × RoundRobinBalancer).
      let later = get_loop check n allow_fade first fuel p.0 p.1 in
      if p.0 == first then some (first, p.1) else later in
    if check ret allow_fade then some (ret, b) else (next_member n b >>= rest)

unfoldable pub get : Check → ℕ → Bool → RoundRobinBalancer → Option (ℕ × RoundRobinBalancer)
unfolding get_loop
get check n allow_fade b = next_member n b >>= λ p. get_loop check n allow_fade p.0 n p.0 p.1

pub data StickyMode : Type 0 where
  no_mode failover source_ip host xhost session_modulo cookie jvm_route : StickyMode

-- The modes that go by the hash, if there is one.
unfoldable pub by_hash : Check → ℕ → ℕ → RoundRobinBalancer → Option (ℕ × RoundRobinBalancer)
by_hash check n sticky_hash b =
    if sticky_hash == 0
    then get check n false b
    else do i ← pick_modulo check n sticky_hash; some (i, b)

-- The switch of `PickGeneric` on the mode.
unfoldable pub pick_mode :
    Check → StickyMode → ℕ → ℕ → RoundRobinBalancer → Option (ℕ × RoundRobinBalancer)
unfolding by_hash
pick_mode check StickyMode.no_mode n hash b = get check n true b
pick_mode check StickyMode.failover n hash b = some (pick_failover check n, b)
pick_mode check _ n hash b = by_hash check n hash b

unfoldable pub pick_generic :
    Check → StickyMode → ℕ → ℕ → RoundRobinBalancer → Option (ℕ × RoundRobinBalancer)
unfolding pick_mode
pick_generic check mode n sticky_hash b =
    if n == 1 then some (0, b) else pick_mode check mode n sticky_hash b
