-- ===== src/Queue.antt =====
-- src/util/LimitedConcurrencyQueue.cxx and LimitedConcurrencyQueue.hxx: jobs that wait until fewer
-- than `concurrency_limit` others run. A job is a number, and `state` holds the state of each.
-- `Add` and `OnDeferredStart` call a job's callback as their last statement, so what the callback
-- does to the queue is further steps of the queue; `called` lists the jobs in the order in which
-- their callbacks were called. `defer_start` is whether the event is scheduled.
pub mod Moves
pub mod Valid
pub mod Settle
use cm4all_beng_proxy.Common.{
  ℕ, erase, Bool, true, false, not, ◌&&◌, List, [], ◌∷◌, ◌++◌, length, ltb, leb, ◌==◌, ◌≡◌,
  if◌then◌else◌,
}

-- `enum class State`: NONE, WAITING and RUNNING
pub data JobState : Type 0 where
  at_none at_waiting at_running : JobState

pub record Queue : Type 0 where
  pub waiting : List ℕ
  pub running : List ℕ
  pub state : ℕ → JobState
  pub defer_start : Bool
  pub concurrency_limit : ℕ
  pub called : List ℕ

unfoldable pub set_state : (ℕ → JobState) → ℕ → JobState → ℕ → JobState
set_state state job s k = if k == job then s else state k

unfoldable pub empty : List ℕ → Bool
empty [] = true
empty (j ∷ jobs) = false

abbrev pub new : ℕ → Queue
new limit = record {
  waiting = [];
  running = [];
  state = λ job. at_none;
  defer_start = false;
  concurrency_limit = limit;
  called = [];
}

-- `Add`, by `Schedule` of a job that is in no list.
unfoldable pub add : Queue → ℕ → Queue
unfolding empty
add q job =
    if empty q.waiting && ltb (length q.running) q.concurrency_limit
    then record q {
      state = set_state q.state job at_running;
      running = q.running ++ job ∷ [];
      called = q.called ++ job ∷ [];
    }
    else record q { state = set_state q.state job at_waiting; waiting = q.waiting ++ job ∷ [] }

-- `Remove`, by `Cancel`; the branches are those of the switch on the job's state.
unfoldable pub remove_at : JobState → Queue → ℕ → Queue
unfolding erase
remove_at at_none q job = q
remove_at at_waiting q job = record q {
  waiting = erase job q.waiting;
  state = set_state q.state job at_none;
}
remove_at at_running q job = record q {
  defer_start = if length q.running == q.concurrency_limit then true else q.defer_start;
  running = erase job q.running;
  state = set_state q.state job at_none;
}

unfoldable pub remove : Queue → ℕ → Queue
unfolding remove_at
remove q job = remove_at (q.state job) q job

-- `OnDeferredStart`, by the list of waiting jobs.
unfoldable pub start_first : Queue → List ℕ → Queue
unfolding empty
start_first q [] = q
start_first q (job ∷ rest) =
    if leb q.concurrency_limit (length q.running)
    then q
    else let running = q.running ++ job ∷ [] in
      record q {
        state = set_state q.state job at_running;
        waiting = rest;
        running = running;
        defer_start =
            if not (empty rest) && ltb (length running) q.concurrency_limit
            then true
            else q.defer_start;
        called = q.called ++ job ∷ [];
      }

unfoldable pub on_deferred_start : Queue → Queue
unfolding start_first
on_deferred_start q = start_first q q.waiting

-- The event loop runs a scheduled event, which is then scheduled no more.
unfoldable pub fire : Queue → Queue
unfolding on_deferred_start
fire q = on_deferred_start (record q { defer_start = false })

-- What can happen to a queue: a job in no list is scheduled, any job is cancelled, or the event
-- loop runs the scheduled event.
pub data Step : Queue → Queue → Type 0 where
  schedule : (q : Queue) (job : ℕ) → q.state job ≡ at_none → Step q (add q job)
  cancel : (q : Queue) (job : ℕ) → Step q (remove q job)
  deferred : (q : Queue) → q.defer_start ≡ true → Step q (fire q)

pub data Steps : Queue → Queue → Type 0 where
  done : (q : Queue) → Steps q q
  more : (q r s : Queue) → Steps q r → Step r s → Steps q s
