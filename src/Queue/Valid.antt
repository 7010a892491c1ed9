-- ===== src/Queue/Valid.antt =====
-- The invariant of src/util/LimitedConcurrencyQueue.cxx.
use cm4all_beng_proxy.Common.{
  ℕ, suc, ◌≤◌, ◌<◌, ◌≡◌, refl, ap, ◌∙◌, true, false, inl, inr, List, [], ◌∷◌, ◌++◌, length, ltb,
  leb, ◌&&◌, not, if◌then◌else◌, arith, Bool-cases, length-append, erase, count, length-erase,
  ==_refl,
}
use cm4all_beng_proxy.Queue.{
  JobState, at_none, at_waiting, at_running, Queue, set_state, empty, new, add, remove_at, remove,
  start_first, on_deferred_start, fire, Step, schedule, cancel, deferred, Steps, done, more,
}
use cm4all_beng_proxy.Queue.Moves.{pushed, erased, untouched}

-- How often a job with the state is in `waiting` and in `running`.
unfoldable pub waits : JobState → ℕ
waits at_none = 0
waits at_waiting = 1
waits at_running = 0

unfoldable pub runs : JobState → ℕ
runs at_none = 0
runs at_waiting = 0
runs at_running = 1

-- The lists hold the jobs that their states name, each once; no more than the limit run; and if a
-- job waits while there is room, then the event is scheduled.
pub record IsValid (q : Queue) : Type 0 where
  pub waits_once : (job : ℕ) → count job q.waiting ≡ waits (q.state job)
  pub runs_once : (job : ℕ) → count job q.running ≡ runs (q.state job)
  pub limited : length q.running ≤ q.concurrency_limit
  pub awake : 0 < length q.waiting → length q.running < q.concurrency_limit → q.defer_start ≡ true

empty-length : (xs : List ℕ) → empty xs ≡ true → length xs ≡ 0
unfolding empty
empty-length [] h = refl
empty-length (x ∷ xs) h = absurd (ground arith)

add-IsValid : (q : Queue) (job : ℕ) → IsValid q → q.state job ≡ at_none → IsValid (add q job)
unfolding add waits runs empty
add-IsValid q job v e =
    elim (Bool-cases (empty q.waiting && ltb (length q.running) q.concurrency_limit)) [
      | inl now ↦ rw now (record {
        waits_once = untouched q.state waits q.waiting job at_running v.waits_once (rw e refl);
        runs_once = pushed q.state runs q.running job at_running v.runs_once (rw e refl) refl;
        limited = ground (arith, length-append q.running (job ∷ []));
        awake = λ w. absurd (ground (arith, empty-length q.waiting));
      })
      | inr later ↦ rw later (record {
        waits_once = pushed q.state waits q.waiting job at_waiting v.waits_once (rw e refl) refl;
        runs_once = untouched q.state runs q.running job at_waiting v.runs_once (rw e refl);
        limited = v.limited;
        awake = λ w r. v.awake (nonempty q.waiting later r) r;
      })
    ]
  where
    nonempty :
        (ws : List ℕ)
        → (empty ws && ltb (length q.running) q.concurrency_limit) ≡ false
        → length q.running < q.concurrency_limit
        → 0 < length ws
    nonempty [] h r = absurd (ground arith)
    nonempty (x ∷ ws) h r = omega arith

remove_at-IsValid :
    (q : Queue) (job : ℕ) (s : JobState) → IsValid q → q.state job ≡ s → IsValid (remove_at s q job)
unfolding remove_at waits runs
remove_at-IsValid q job at_none v e = v
remove_at-IsValid q job at_waiting v e =
    let shorter : suc (length (erase job q.waiting)) ≡ length q.waiting =
      length-erase job q.waiting (rw (v.waits_once job, e) (omega arith)) in
    record {
      waits_once = erased q.state waits q.waiting job at_none v.waits_once (rw e refl) refl;
      runs_once = untouched q.state runs q.running job at_none v.runs_once (rw e refl);
      limited = v.limited;
      awake = λ w r. v.awake (omega arith) r;
    }
remove_at-IsValid q job at_running v e =
    let shorter : suc (length (erase job q.running)) ≡ length q.running =
      length-erase job q.running (rw (v.runs_once job, e) (omega arith)) in
    record {
      waits_once = untouched q.state waits q.waiting job at_none v.waits_once (rw e refl);
      runs_once = erased q.state runs q.running job at_none v.runs_once (rw e refl) refl;
      limited = omega (arith, v.limited);
      awake = λ w r. ground (arith, v.awake, v.limited);
    }

waits_le : (s : JobState) → waits s ≤ 1
unfolding waits
waits_le at_none = omega arith
waits_le at_waiting = omega arith
waits_le at_running = omega arith

not_both : (s : JobState) → 0 < waits s → runs s ≡ 0
unfolding waits runs
not_both at_none h = refl
not_both at_waiting h = refl
not_both at_running h = absurd (omega arith)

first_started :
    (s : ℕ → JobState) (job : ℕ) (rest : List ℕ)
    → ((k : ℕ) → count k (job ∷ rest) ≡ waits (s k))
    → (k : ℕ) → count k rest ≡ waits (set_state s job at_running k)
unfolding count set_state waits
first_started s job rest h k = ground (arith, h k, waits_le (s k))

first_waits :
    (s : ℕ → JobState) (job : ℕ) (rest : List ℕ)
    → ((k : ℕ) → count k (job ∷ rest) ≡ waits (s k))
    → 0 < waits (s job)
unfolding count
first_waits s job rest h = ground (arith, h job, ==_refl job)

start_first-IsValid :
    (q : Queue) (ws : List ℕ)
    → q.waiting ≡ ws
    → ((job : ℕ) → count job ws ≡ waits (q.state job))
    → ((job : ℕ) → count job q.running ≡ runs (q.state job))
    → length q.running ≤ q.concurrency_limit
    → IsValid (start_first q ws)
unfolding start_first empty runs
start_first-IsValid q [] e w r l = record {
  waits_once = λ job. ap (count job) e ∙ w job;
  runs_once = r;
  limited = l;
  awake = λ some_wait. absurd (omega (arith, ap length e));
}
start_first-IsValid q (job ∷ rest) e w r l =
    elim (Bool-cases (leb q.concurrency_limit (length q.running))) [
      | inl full ↦ rw full (record {
        waits_once = λ j. ap (count j) e ∙ w j;
        runs_once = r;
        limited = l;
        awake = λ some_wait room. absurd (ground arith);
      })
      | inr room ↦ rw room (record {
        waits_once = first_started q.state job rest w;
        runs_once =
            pushed q.state runs q.running job at_running r
              (not_both (q.state job) (first_waits q.state job rest w)) refl;
        limited = ground (arith, length-append q.running (job ∷ []));
        awake = waking rest;
      })
    ]
  where
    waking :
        (rest : List ℕ)
        → 0 < length rest
        → length (q.running ++ job ∷ []) < q.concurrency_limit
        → (if not (empty rest) && ltb (length (q.running ++ job ∷ [])) q.concurrency_limit
            then true
            else q.defer_start)
          ≡ true
    waking [] some_wait more_room = absurd (omega arith)
    waking (x ∷ rest) some_wait more_room = ground arith

pub fire-IsValid : (q : Queue) → IsValid q → IsValid (fire q)
unfolding fire on_deferred_start
fire-IsValid q v = start_first-IsValid _ q.waiting refl v.waits_once v.runs_once v.limited

Step-IsValid : (q r : Queue) → IsValid q → Step q r → IsValid r
unfolding remove
Step-IsValid q r v (schedule _ job e) = add-IsValid q job v e
Step-IsValid q r v (cancel _ job) = remove_at-IsValid q job (q.state job) v refl
Step-IsValid q r v (deferred _ e) = fire-IsValid q v

new-IsValid : (limit : ℕ) → IsValid (new limit)
unfolding count waits runs
new-IsValid limit = record {
  waits_once = λ job. refl;
  runs_once = λ job. refl;
  limited = omega arith;
  awake = λ some_wait. absurd (omega arith);
}

start_first-limit :
    (q : Queue) (ws : List ℕ) → (start_first q ws).concurrency_limit ≡ q.concurrency_limit
unfolding start_first
start_first-limit q [] = refl
start_first-limit q (job ∷ rest) = ground arith

remove_at-limit :
    (s : JobState) (q : Queue) (job : ℕ)
    → (remove_at s q job).concurrency_limit ≡ q.concurrency_limit
unfolding remove_at
remove_at-limit at_none q job = refl
remove_at-limit at_waiting q job = refl
remove_at-limit at_running q job = refl

Step-limit : (q r : Queue) → Step q r → r.concurrency_limit ≡ q.concurrency_limit
unfolding add remove fire on_deferred_start
Step-limit q r (schedule _ job e) = ground arith
Step-limit q r (cancel _ job) = remove_at-limit (q.state job) q job
Step-limit q r (deferred _ e) = start_first-limit _ q.waiting

-- Whatever jobs are scheduled and cancelled, in any order and also by the callbacks, and whenever
-- the event loop runs the event: each job is in the one list that its state names, once, no more
-- jobs run than the limit of the new queue allows, and if a job waits while there is room, then
-- the event that starts it is scheduled.
pub reachable-IsValid :
    (limit : ℕ) (q : Queue) → Steps (new limit) q → IsValid q × (length q.running ≤ limit)
reachable-IsValid limit q steps =
    let r : IsValid q × (q.concurrency_limit ≡ limit) =
      go (new limit) q (new-IsValid limit) steps in
    (r.0, omega (arith, r.0.limited, r.1))
  where
    go :
        (p q : Queue)
        → IsValid p
        → Steps p q
        → IsValid q × (q.concurrency_limit ≡ p.concurrency_limit)
    go p q v (done _) = (v, refl)
    go p q v (more _ r _ before step) =
        let (valid, same) = go p r v before in
        (Step-IsValid r q valid step, Step-limit r q step ∙ same)
