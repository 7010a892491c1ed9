-- ===== src/Tests/Queues.antt =====
-- The queue of src/util/LimitedConcurrencyQueue.cxx on concrete jobs.
use cm4all_beng_proxy.Common.{erase, ◌<◌, ◌≤◌, ◌≡◌, refl, true, [], ◌∷◌, length, arith}
use cm4all_beng_proxy.Queue
use cm4all_beng_proxy.Queue.{Queue, at_none, add, remove, fire, Steps, done, more, schedule, cancel}
use cm4all_beng_proxy.Queue.Valid.{IsValid, reachable-IsValid}
use cm4all_beng_proxy.Queue.Settle.{IsSettled, settle, settle-IsSettled}

-- One job may run: 3 runs, 4 and 5 wait, and 3 is cancelled.
abbrev start : Queue
start = Queue.new 1

abbrev busy : Queue
busy = add (add (add start 3) 4) 5

abbrev free : Queue
free = remove busy 3

free_waiting : free.waiting ≡ 4 ∷ 5 ∷ []
unfolding add remove Queue.remove_at Queue.set_state erase Queue.empty
free_waiting = refl

free_scheduled : free.defer_start ≡ true
unfolding add remove Queue.remove_at Queue.set_state erase Queue.empty
free_scheduled = refl

fired_called : (fire free).called ≡ 3 ∷ 4 ∷ []
unfolding add remove Queue.remove_at Queue.set_state erase Queue.empty fire Queue.on_deferred_start
    Queue.start_first
fired_called = refl

free-Steps : Steps start free
unfolding add Queue.set_state Queue.empty
free-Steps =
    more _ _ _
      (more _ _ _
        (more _ _ _ (more _ _ _ (done start) (schedule start 3 refl))
          (schedule (add start 3) 4 refl))
        (schedule (add (add start 3) 4) 5 refl))
      (cancel busy 3)

reachable-IsValid_example : IsValid free × (length free.running ≤ 1)
reachable-IsValid_example = reachable-IsValid 1 free free-Steps

free-IsValid : IsValid free
free-IsValid = (reachable-IsValid 1 free free-Steps).0

free_short : length free.waiting < 3
free_short = rw free_waiting (omega arith)

settle-IsSettled_example : IsSettled free (settle 3 free)
settle-IsSettled_example = settle-IsSettled 3 free free-IsValid free_short
