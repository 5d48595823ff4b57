-- ===== src/Billing/Closure/Queue.antt =====
-- The queue of `ClosureRunner` (modules/billing/closure.py) holds each session once, within its
-- capacity, and gives it out in turn.
use ttcs_t926_k8s4_n1_csms.Base.{
  ℕ, ◌+◌, ◌≤◌, ◌<◌, ◌≡◌, refl, ap, subst, ◌⊎◌, inl, inr, Bool, true, false, Option, none, some,
  List, [], ◌∷◌, length, arith,
}
use ttcs_t926_k8s4_n1_csms.Billing.Closure.Runner.{
  Runner, contains, discard, is_full, worker_at, put_worker, Event, scheduled, taken, finished,
  offer, schedule, get, finish, step, run, closure_lifespan,
}
use ttcs_t926_k8s4_n1_csms.Billing.Closure.Counts.{
  count, held, count-append, length-append, contains-count, count-contains, discard-Discarded,
  once-added, runner_inj, held-put_worker,
}
use ttcs_t926_k8s4_n1_csms.Wallet.Tables.{Db}

-- Each session that is pending stands once in the queue or is held by one worker, no other session
-- does, and the queue is within its capacity.
pub record Held (capacity : ℕ) (r : Runner) : Type 0 where
  pub once : (i : ℕ) → count i r.pending ≤ 1
  pub place : (i : ℕ) → count i r.pending ≡ count i r.queue + held i r.workers
  pub room : 0 < capacity → length r.queue ≤ capacity

module _ (capacity : ℕ) (arrive : ℕ → Db → Db) (settles : Bool) where
  schedule-Held :
      (i : ℕ) (r : Runner)
      → Held capacity r
      → Held capacity (schedule capacity arrive settles i r).1
  unfolding schedule
  schedule-Held i r h = go (contains i r.pending) refl (is_full capacity r.queue) refl
    where
      go :
          (known : Bool)
          → contains i r.pending ≡ known
          → (full : Bool) → is_full capacity r.queue ≡ full
          → Held capacity (offer known full i r).1
      go true e full f = h
      go false e true f = h
      go false e false f = record {
        once = λ k. once-added i k r.pending e (h.once k);
        place = λ k. omega (arith, h.place k, count-append k i r.queue);
        room = λ p. ground (arith, length-append i r.queue);
      }

  finish-Held :
      (w now fresh i : ℕ) (r : Runner)
      → worker_at w r.workers ≡ some (some i)
      → Held capacity r
      → (db : Db)
      → Held capacity (record r {
        pending = discard i r.pending;
        workers = put_worker w none r.workers;
        db = db;
      })
  finish-Held w now fresh i r e h db = record {
    once = λ k. elim (discard-Discarded i k r.pending) [
      | inl (s, z) ↦ omega (arith, z)
      | inr (s, z) ↦ omega (arith, z, h.once k)
    ];
    place = λ k.
        let moved = held-put_worker k w (some i) none r.workers e in
        elim (discard-Discarded i k r.pending) [
          | inl (s, z) ↦ omega (arith, z, s, moved, h.once k, h.place k)
          | inr (s, z) ↦ omega (arith, z, s, moved, h.place k)
        ];
    room = h.room;
  }

  get-Held :
      (w i : ℕ) (queue : List ℕ) (r : Runner)
      → worker_at w r.workers ≡ some none
      → r.queue ≡ i ∷ queue
      → Held capacity r
      → Held capacity (record r { queue = queue; workers = put_worker w (some i) r.workers })
  get-Held w i queue r e q h = record {
    once = h.once;
    place = λ k.
        omega (arith, held-put_worker k w none (some i) r.workers e, h.place k, ap (count k) q);
    room = λ p. omega (arith, h.room p, ap (length {A = ℕ}) q);
  }

  step-Held :
      (e : Event) (r r' : Runner)
      → step capacity arrive settles e r ≡ some r'
      → Held capacity r
      → Held capacity r'
  unfolding step
  step-Held (scheduled i) r r' s h = subst (Held capacity) (runner_inj s) (schedule-Held i r h)
  step-Held (taken w) r r' s h = go (worker_at w r.workers) refl r.queue refl s
    where
      go :
          (o : Option (Option ℕ))
          → worker_at w r.workers ≡ o
          → (queue : List ℕ) → r.queue ≡ queue
          → get w o queue r ≡ some r'
          → Held capacity r'
      go none e queue q k = cc
      go (some (some i)) e queue q k = cc
      go (some none) e [] q k = cc
      go (some none) e (i ∷ queue) q k =
          subst (Held capacity) (runner_inj k) (get-Held w i queue r e q h)
  step-Held (finished w now fresh) r r' s h = go (worker_at w r.workers) refl s
    where
      go :
          (o : Option (Option ℕ))
          → worker_at w r.workers ≡ o
          → finish capacity arrive settles w now fresh o r ≡ some r'
          → Held capacity r'
      go none e k = cc
      go (some none) e k = cc
      go (some (some i)) e k =
          subst (Held capacity) (runner_inj k) (finish-Held w now fresh i r e h _)

  pub run-step :
      (e : Event) (es : List Event) (r r' : Runner)
      → run capacity arrive settles (e ∷ es) r ≡ some r'
      → (r1 : Runner) × (step capacity arrive settles e r ≡ some r1)
        × (run capacity arrive settles es r1 ≡ some r')
  unfolding run
  run-step e es r r' s = go (step capacity arrive settles e r) refl s
    where
      go :
          (o : Option Runner)
          → step capacity arrive settles e r ≡ o
          → elim o [ none ↦ none | some r1 ↦ run capacity arrive settles es r1 ] ≡ some r'
          → (r1 : Runner) × (step capacity arrive settles e r ≡ some r1)
            × (run capacity arrive settles es r1 ≡ some r')
      go none q k = cc
      go (some r1) q k = (r1, q, k)

  run-Held :
      (es : List Event) (r r' : Runner)
      → run capacity arrive settles es r ≡ some r'
      → Held capacity r
      → Held capacity r'
  unfolding run
  run-Held [] r r' s h = subst (Held capacity) (runner_inj s) h
  run-Held (e ∷ es) r r' s h =
      let (r1, q, k) = run-step e es r r' s in run-Held es r1 r' k (step-Held e r r1 q h)

  start-Held : (db : Db) → Held capacity (closure_lifespan db)
  start-Held db = record { once = λ i. omega arith; place = λ i. refl; room = λ p. omega arith }

  -- What schedule answers on a session.
  abbrev pub Answered : ℕ → Runner → Type 0
  Answered i r =
      ((schedule capacity arrive settles i r).0 ≡ true)
        × (count i (schedule capacity arrive settles i r).1.pending ≡ 1)
      ⊎ (schedule capacity arrive settles i r ≡ (false, r))
        × (0 < capacity)
        × (length r.queue ≡ capacity)

  schedule-Answered : (i : ℕ) (r : Runner) → Held capacity r → Answered i r
  unfolding schedule
  schedule-Answered i r h = go (contains i r.pending) refl (is_full capacity r.queue) refl
    where
      go :
          (known : Bool)
          → contains i r.pending ≡ known
          → (full : Bool) → is_full capacity r.queue ≡ full
          → ((offer known full i r).0 ≡ true) × (count i (offer known full i r).1.pending ≡ 1)
            ⊎ (offer known full i r ≡ (false, r)) × (0 < capacity) × (length r.queue ≡ capacity)
      go true e full f = inl (refl, omega (arith, count-contains i r.pending e, h.once i))
      go false e true f = inr (
        refl,
        ground arith,
        let some_room : 0 < capacity = ground arith in
            let used : capacity ≤ length r.queue = ground arith in
            omega (arith, h.room some_room, used),
      )
      go false e false f = inl (refl, ground (arith, contains-count i r.pending e))

  -- After any sequence of events since closure_lifespan began, each pending session stands once in the
  -- queue or is held by one worker, no other session does, and a queue of a positive capacity is
  -- within it. On every session schedule then answers true and the session is pending, or answers
  -- false and changes nothing, and the queue is full.
  pub closure_lifespan-Held :
      (db : Db) (es : List Event) (r : Runner)
      → run capacity arrive settles es (closure_lifespan db) ≡ some r
      → Held capacity r × ((i : ℕ) → Answered i r)
  closure_lifespan-Held db es r s =
      let h = run-Held es (closure_lifespan db) r s (start-Held db) in
      (h, λ i. schedule-Answered i r h)
