-- ===== src/Billing/Closure/Runner.antt =====
-- `ClosureRunner` of modules/billing/closure.py: a queue of hints, the set of sessions that wait or are
-- in work, and the workers. An event is one step of the event loop; a worker's transaction ends within
-- `finish`.
use ttcs_t926_k8s4_n1_csms.Base.{
  ℕ, zero, suc, Bool, true, false, not, ◌&&◌, Option, none, some, List, [], ◌∷◌, ◌++◌, keep, length,
  ltb, leb, ◌==◌, if◌then◌else◌,
}
use ttcs_t926_k8s4_n1_csms.Billing.Invoicing.{InvoiceResult}
use ttcs_t926_k8s4_n1_csms.Billing.Closure.{chot_phien}
use ttcs_t926_k8s4_n1_csms.Wallet.Tables.{Db}
use ttcs_t926_k8s4_n1_csms.Wallet.Tx.{Result, ok, err}

-- The front of the queue stands first; a worker is idle or holds a session.
pub record Runner : Type 0 where
  pub queue : List ℕ
  pub pending : List ℕ
  pub workers : List (Option ℕ)
  pub db : Db

-- `session_id in self.pending`
abbrev pub contains : ℕ → List ℕ → Bool
contains i [] = false
contains i (j ∷ l) = if j == i then true else contains i l

-- `self.pending.discard(session_id)`
abbrev pub discard : ℕ → List ℕ → List ℕ
discard i l = keep (λ j. not (j == i)) l

-- A queue of no size is never full.
abbrev pub is_full : ℕ → List ℕ → Bool
is_full capacity queue = ltb 0 capacity && leb capacity (length queue)

abbrev pub worker_at : ℕ → List (Option ℕ) → Option (Option ℕ)
worker_at w [] = none
worker_at zero (o ∷ ws) = some o
worker_at (suc w) (o ∷ ws) = worker_at w ws

abbrev pub put_worker : ℕ → Option ℕ → List (Option ℕ) → List (Option ℕ)
put_worker w new [] = []
put_worker zero new (o ∷ ws) = new ∷ ws
put_worker (suc w) new (o ∷ ws) = o ∷ put_worker w new ws

-- The commit, or the rollback and `except Exception`.
abbrev pub after_close : Db → Result (InvoiceResult × Db) → Db
after_close db (ok (outcome, db')) = db'
after_close db (err e) = db

-- `finish` has the time and the id that the worker's transaction draws.
pub data Event : Type 0 where
  scheduled taken : ℕ → Event
  finished : (worker now fresh : ℕ) → Event

-- `schedule`, by whether the session is known and the queue is full.
abbrev pub offer : Bool → Bool → ℕ → Runner → Bool × Runner
offer true full i r = (true, r)
offer false true i r = (false, r)
offer false false i r = (true, record r { queue = r.queue ++ i ∷ []; pending = i ∷ r.pending })

-- `await self.queue.get()` of an idle worker, where the queue has a session.
abbrev pub get : ℕ → Option (Option ℕ) → List ℕ → Runner → Option Runner
get w (some none) (i ∷ queue) r =
    some record r { queue = queue; workers = put_worker w (some i) r.workers }
get w _ _ r = none

module _ (capacity : ℕ) (arrive : ℕ → Db → Db) (settles : Bool) where
  unfoldable pub schedule : ℕ → Runner → Bool × Runner
  schedule i r = offer (contains i r.pending) (is_full capacity r.queue) i r

  -- The rest of a turn.
  abbrev pub finish : ℕ → ℕ → ℕ → Option (Option ℕ) → Runner → Option Runner
  finish w now fresh (some (some i)) r = some record r {
    pending = discard i r.pending;
    workers = put_worker w none r.workers;
    db = after_close r.db (chot_phien now fresh arrive settles i r.db);
  }
  finish w now fresh _ r = none

  -- No value where the event cannot happen.
  unfoldable pub step : Event → Runner → Option Runner
  unfolding schedule
  step (scheduled i) r = some (schedule i r).1
  step (taken w) r = get w (worker_at w r.workers) r.queue r
  step (finished w now fresh) r = finish w now fresh (worker_at w r.workers) r

  unfoldable pub run : List Event → Runner → Option Runner
  unfolding step
  run [] r = some r
  run (e ∷ es) r = elim (step e r) [ none ↦ none | some r' ↦ run es r' ]

-- What `closure_lifespan` starts with: two idle workers and an empty queue. The tasks end with the
-- process, which is left out.
abbrev pub closure_lifespan : Db → Runner
closure_lifespan db = record { queue = []; pending = []; workers = none ∷ none ∷ []; db = db }
