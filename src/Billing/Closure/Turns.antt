-- ===== src/Billing/Closure/Turns.antt =====
-- A session that waits for `ClosureRunner` (modules/billing/closure.py) gets its turn.
use ttcs_t926_k8s4_n1_csms.Base.{
  ℕ, suc, ◌+◌, ◌≤◌, ◌<◌, ◌≡◌, refl, sym, ap, subst, ◌∙◌, zero, Bool, true, false, Option, none,
  some, List, [], ◌∷◌, ◌++◌, ◌==◌, if◌then◌else◌, Bool-cases, ◌⊎◌, inl, inr, arith,
}
use ttcs_t926_k8s4_n1_csms.Billing.Closure.Runner.{
  Runner, contains, is_full, worker_at, put_worker, Event, scheduled, taken, finished, offer,
  schedule, get, finish, step, run,
}
use ttcs_t926_k8s4_n1_csms.Billing.Closure.Counts.{runner_inj}
use ttcs_t926_k8s4_n1_csms.Billing.Closure.Queue.{run-step}
use ttcs_t926_k8s4_n1_csms.Wallet.Tables.{Db}

-- How many sessions stand before one.
abbrev pub ahead : ℕ → List ℕ → ℕ
ahead i [] = 0
ahead i (j ∷ l) = if j == i then 0 else suc (ahead i l)

abbrev pub takes : List Event → ℕ
takes [] = 0
takes (scheduled i ∷ es) = takes es
takes (taken w ∷ es) = suc (takes es)
takes (finished w now fresh ∷ es) = takes es

-- The session that a worker holds, by its entry in the list of workers.
abbrev pub in_work : Option (Option ℕ) → List ℕ
in_work (some (some i)) = i ∷ []
in_work _ = []

-- The session that the worker of an event holds once it has taken one.
abbrev pub given : Event → Runner → List ℕ
given (scheduled i) after = []
given (taken w) after = in_work (worker_at w after.workers)
given (finished w now fresh) after = []

-- A worker that is there holds what is put in its place.
worker_at-put_worker :
    (w : ℕ) (new : Option ℕ) (o : Option ℕ) (ws : List (Option ℕ))
    → worker_at w ws ≡ some o
    → worker_at w (put_worker w new ws) ≡ some new
worker_at-put_worker w new o [] h = cc
worker_at-put_worker zero new o (x ∷ ws) h = refl
worker_at-put_worker (suc w) new o (x ∷ ws) h = worker_at-put_worker w new o ws h

contains-left : (i : ℕ) (a b : List ℕ) → contains i a ≡ true → contains i (a ++ b) ≡ true
contains-left i [] b h = cc
contains-left i (j ∷ a) b h = ground (arith, contains-left i a b)

contains-right : (i : ℕ) (a b : List ℕ) → contains i b ≡ true → contains i (a ++ b) ≡ true
contains-right i [] b h = h
contains-right i (j ∷ a) b h = ground (arith, contains-right i a b h)

ahead-append : (i j : ℕ) (l : List ℕ) → contains i l ≡ true → ahead i (l ++ j ∷ []) ≡ ahead i l
ahead-append i j [] h = cc
ahead-append i j (k ∷ l) h = ground (arith, ahead-append i j l)

module _ (capacity : ℕ) (arrive : ℕ → Db → Db) (settles : Bool) where
  -- The sessions that the workers hold after they took them, in order.
  abbrev pub handed : List Event → Runner → List ℕ
  handed [] r = []
  handed (e ∷ es) r = elim (step capacity arrive settles e r) [
    | none ↦ []
    | some r1 ↦ given e r1 ++ handed es r1
  ]

  -- What an event leaves to a session that waits: it is given out, or nearer by a take.
  abbrev Nearer : ℕ → Event → List Event → Runner → Runner → Type 0
  Nearer i e es r r1 =
      (contains i (given e r1) ≡ true)
      ⊎ (contains i r1.queue ≡ true)
        × (ahead i r1.queue + takes (e ∷ es) ≤ ahead i r.queue + takes es)

  got-Nearer :
      (i w j : ℕ) (es : List Event) (r : Runner) (queue : List ℕ)
      → r.queue ≡ j ∷ queue
      → worker_at w r.workers ≡ some none
      → contains i r.queue ≡ true
      → Nearer i
          (taken w)
          es
          r
          (record r { queue = queue; workers = put_worker w (some j) r.workers })
  got-Nearer i w j es r queue q idle c = elim (Bool-cases (j == i)) [
    | inl e ↦ inl (
        ap (λ o. contains i (in_work o)) (worker_at-put_worker w (some j) none r.workers idle)
        ∙ rw e refl)
    | inr e ↦
        let there : contains i (j ∷ queue) ≡ true = sym (ap (contains i) q) ∙ c in
        let before : ahead i r.queue ≡ suc (ahead i queue) = ap (ahead i) q ∙ rw e refl in
        inr (ground arith, omega (arith, before))
  ]

  step-Nearer :
      (i : ℕ) (e : Event) (es : List Event) (r r1 : Runner)
      → step capacity arrive settles e r ≡ some r1
      → contains i r.queue ≡ true
      → Nearer i e es r r1
  unfolding step schedule
  step-Nearer i (scheduled j) es r r1 s c =
      subst (Nearer i (scheduled j) es r) (runner_inj s)
        (go (contains j r.pending) (is_full capacity r.queue))
    where
      go : (known full : Bool) → Nearer i (scheduled j) es r (offer known full j r).1
      go true full = inr (c, omega arith)
      go false true = inr (c, omega arith)
      go false false =
          inr (contains-left i r.queue (j ∷ []) c, omega (arith, ahead-append i j r.queue c))
  step-Nearer i (taken w) es r r1 s c = go (worker_at w r.workers) r.queue refl refl s
    where
      go :
          (o : Option (Option ℕ)) (queue : List ℕ)
          → worker_at w r.workers ≡ o
          → r.queue ≡ queue
          → get w o queue r ≡ some r1
          → Nearer i (taken w) es r r1
      go none queue x q k = cc
      go (some (some j)) queue x q k = cc
      go (some none) [] x q k = cc
      go (some none) (j ∷ queue) x q k =
          subst (Nearer i (taken w) es r) (runner_inj k) (got-Nearer i w j es r queue q x c)
  step-Nearer i (finished w now fresh) es r r1 s c = go (worker_at w r.workers) s
    where
      go :
          (o : Option (Option ℕ))
          → finish capacity arrive settles w now fresh o r ≡ some r1
          → Nearer i (finished w now fresh) es r r1
      go none k = cc
      go (some none) k = cc
      go (some (some j)) k =
          subst (Nearer i (finished w now fresh) es r) (runner_inj k) (inr (c, omega arith))

  -- A session that waits in the queue is held by a worker after the worker's take, in every sequence of
  -- events that can happen and in which the workers take more sessions than stand before it.
  pub run-Turn :
      (i : ℕ) (es : List Event) (r r' : Runner)
      → run capacity arrive settles es r ≡ some r'
      → contains i r.queue ≡ true
      → ahead i r.queue < takes es
      → contains i (handed es r) ≡ true
  run-Turn i [] r r' s c a = absurd (omega (arith, a))
  run-Turn i (e ∷ es) r r' s c a =
      let (r1, q, k) = run-step capacity arrive settles e es r r' s in
      subst (λ o. contains i (elim o [ none ↦ [] | some r1 ↦ given e r1 ++ handed es r1 ]) ≡ true)
        (sym q)
        (elim (step-Nearer i e es r r1 q c) [
          | inl here ↦ contains-left i (given e r1) (handed es r1) here
          | inr (there, nearer) ↦
              contains-right i (given e r1) (handed es r1)
                (run-Turn i es r1 r' k there (omega (arith, a, nearer)))
        ])
