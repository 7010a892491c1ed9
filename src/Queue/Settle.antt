-- ===== src/Queue/Settle.antt =====
-- src/util/LimitedConcurrencyQueue.cxx: what the scheduled event does, run until it is scheduled no
-- more.
use cm4all_beng_proxy.Common.{
  ℕ, zero, suc, ◌-◌, ◌<◌, ◌≡◌, ◌⊎◌, refl, sym, ap, ap₂, ◌∙◌, Bool, true, false, inl, inr, List, [],
  ◌∷◌, ◌++◌, length, leb, take, drop, append-nil, append_assoc, if◌then◌else◌, arith, Bool-cases,
  length-append,
}
use cm4all_beng_proxy.Queue.{Queue, start_first, on_deferred_start, fire}
use cm4all_beng_proxy.Queue.Valid.{IsValid, fire-IsValid}

-- The event loop, with no other event.
unfoldable pub settle : ℕ → Queue → Queue
settle zero q = q
settle (suc fuel) q = let later = settle fuel (fire q) in if q.defer_start then later else q

-- The number of jobs that can start.
abbrev pub room : Queue → ℕ
room q = q.concurrency_limit - length q.running

-- As many waiting jobs as there is room for have started, in their order.
pub record IsSettled (q r : Queue) : Type 0 where
  pub idle : r.defer_start ≡ false
  pub waiting : r.waiting ≡ drop (room q) q.waiting
  pub running : r.running ≡ q.running ++ take (room q) q.waiting
  pub called : r.called ≡ q.called ++ take (room q) q.waiting

settle_idle : (fuel : ℕ) (q : Queue) → q.defer_start ≡ false → settle fuel q ≡ q
unfolding settle
settle_idle zero q h = refl
settle_idle (suc fuel) q h = rw h refl

-- Nothing can start.
abbrev IsStuck : ℕ → List ℕ → Type 0
IsStuck n ws = (take n ws ≡ []) × (drop n ws ≡ ws)

no_room : (n : ℕ) (ws : List ℕ) → n ≡ 0 → IsStuck n ws
no_room n ws h = rw h (refl, refl)

no_jobs : (n : ℕ) → IsStuck n []
no_jobs zero = (refl, refl)
no_jobs (suc n) = (refl, refl)

stuck-IsSettled :
    (q r : Queue)
    → r.defer_start ≡ false
    → r.waiting ≡ q.waiting
    → r.running ≡ q.running
    → r.called ≡ q.called
    → IsStuck (room q) q.waiting
    → IsSettled q r
stuck-IsSettled q r d w n c s = record {
  idle = d;
  waiting = w ∙ sym s.1;
  running = rw s.0 (n ∙ sym (append-nil q.running));
  called = rw s.0 (c ∙ sym (append-nil q.called));
}

asleep-IsStuck :
    (q : Queue) (ws : List ℕ)
    → q.waiting ≡ ws
    → IsValid q
    → q.defer_start ≡ false
    → IsStuck (room q) ws
asleep-IsStuck q [] e v d = no_jobs (room q)
asleep-IsStuck q (x ∷ ws) e v d =
    no_room (room q) (x ∷ ws) (ground (arith, v.awake (omega (arith, ap length e)), v.limited))

-- The first waiting job has started.
record IsStarted (q r : Queue) : Type 0 where
  job : ℕ
  rest : List ℕ
  first : q.waiting ≡ job ∷ rest
  waiting : r.waiting ≡ rest
  running : r.running ≡ q.running ++ job ∷ []
  called : r.called ≡ q.called ++ job ∷ []
  limit : r.concurrency_limit ≡ q.concurrency_limit
  fits : length q.running < q.concurrency_limit

start_first-cases :
    (q : Queue) (ws : List ℕ)
    → q.waiting ≡ ws
    → ((start_first q ws ≡ q) × IsStuck (room q) ws) ⊎ IsStarted q (start_first q ws)
unfolding start_first
start_first-cases q [] e = inl (refl, no_jobs (room q))
start_first-cases q (x ∷ ws) e = elim (Bool-cases (leb q.concurrency_limit (length q.running))) [
  | inl full ↦ rw full (inl (refl, no_room (room q) (x ∷ ws) (ground arith)))
  | inr fits ↦ rw fits (
      inr (record {
        job = x;
        rest = ws;
        first = e;
        waiting = refl;
        running = refl;
        called = refl;
        limit = refl;
        fits = ground arith;
      }))
]

started-IsSettled : (q r s : Queue) → IsStarted q r → IsSettled r s → IsSettled q s
started-IsSettled q r s a b = record {
  idle = b.idle;
  waiting = rw (one_more, a.first) (b.waiting ∙ ap (drop (room r)) a.waiting);
  running =
      rw (one_more, a.first)
        (b.running
          ∙ ap₂ (λ n w. n ++ take (room r) w) a.running a.waiting
          ∙ append_assoc q.running (a.job ∷ []) _);
  called =
      rw (one_more, a.first)
        (b.called
          ∙ ap₂ (λ n w. n ++ take (room r) w) a.called a.waiting
          ∙ append_assoc q.called (a.job ∷ []) _);
}
  where
    one_more : room q ≡ suc (room r)
    one_more =
        omega (arith, a.fits, a.limit, ap length a.running, length-append q.running (a.job ∷ []))

abbrev unscheduled : Queue → Queue
unscheduled q = record q { defer_start = false }

fire-cases :
    (q : Queue) → ((fire q ≡ unscheduled q) × IsStuck (room q) q.waiting) ⊎ IsStarted q (fire q)
unfolding fire on_deferred_start
fire-cases q = elim (start_first-cases (unscheduled q) q.waiting refl) [
  | inl same ↦ inl same
  | inr s ↦ inr (record {
    job = s.job;
    rest = s.rest;
    first = s.first;
    waiting = s.waiting;
    running = s.running;
    called = s.called;
    limit = s.limit;
    fits = s.fits;
  })
]

fired :
    (fuel : ℕ) (q r : Queue)
    → IsValid r
    → length q.waiting < suc fuel
    → ((r ≡ unscheduled q) × IsStuck (room q) q.waiting) ⊎ IsStarted q r
    → ((p : Queue) → IsValid p → length p.waiting < fuel → IsSettled p (settle fuel p))
    → IsSettled q (settle fuel r)
fired fuel q r v lt (inl (e, s)) ih =
    rw (e, settle_idle fuel (unscheduled q) refl)
      (stuck-IsSettled q (unscheduled q) refl refl refl refl s)
fired fuel q r v lt (inr a) ih =
    started-IsSettled q r (settle fuel r) a
      (ih r v (omega (arith, ap length a.first, ap length a.waiting)))

either :
    (q : Queue) (b : Bool) (x : Queue)
    → (b ≡ true → IsSettled q x)
    → (b ≡ false → IsSettled q q)
    → IsSettled q (if b then x else q)
either q true x on off = on refl
either q false x on off = off refl

-- From a valid queue, the scheduled event is run no more often than there are waiting jobs, and
-- once more: then it is scheduled no more, and as many waiting jobs as there was room for have been
-- started, the front of `waiting` in its order, behind those that ran; the others still wait.
pub settle-IsSettled :
    (fuel : ℕ) (q : Queue) → IsValid q → length q.waiting < fuel → IsSettled q (settle fuel q)
unfolding settle
settle-IsSettled zero q v lt = absurd (omega arith)
settle-IsSettled (suc fuel) q v lt =
    either q q.defer_start (settle fuel (fire q))
      (λ on. fired fuel q (fire q) (fire-IsValid q v) lt (fire-cases q) (settle-IsSettled fuel))
      (λ off. stuck-IsSettled q q off refl refl refl (asleep-IsStuck q q.waiting refl v off))
