-- ===== src/Billing/Closure/RunnerTests.antt =====
-- Two sessions that no table has: the worker's transaction raises, and the runner goes on.
use ttcs_t926_k8s4_n1_csms.Base.{ℕ, ◌≡◌, refl, true, none, some, List, [], ◌∷◌, arith}
use ttcs_t926_k8s4_n1_csms.Billing.Closure.{close, chot_phien}
use ttcs_t926_k8s4_n1_csms.Billing.Closure.Runner.{
  Runner, contains, Event, scheduled, taken, finished, schedule, step, run, closure_lifespan,
}
use ttcs_t926_k8s4_n1_csms.Billing.Closure.Queue.{Held, Answered, closure_lifespan-Held}
use ttcs_t926_k8s4_n1_csms.Billing.Closure.Turns.{handed, run-Turn}
use ttcs_t926_k8s4_n1_csms.Billing.Invoicing.{lap_hoa_don}
use ttcs_t926_k8s4_n1_csms.Wallet.Tests.{tables, quiet}

abbrev events : List Event
events = scheduled 42 ∷ scheduled 5 ∷ scheduled 42 ∷ taken 1 ∷ finished 1 77 9 ∷ []

abbrev one_left : Runner
one_left = record { queue = 5 ∷ []; pending = 5 ∷ []; workers = none ∷ none ∷ []; db = tables }

one_left_lem : run 256 (λ i. quiet) true events (closure_lifespan tables) ≡ some one_left
unfolding run step schedule chot_phien close lap_hoa_don
one_left_lem = refl

closure_lifespan-Held_example :
    Held 256 one_left × ((i : ℕ) → Answered 256 (λ i. quiet) true i one_left)
closure_lifespan-Held_example =
    closure_lifespan-Held 256 (λ i. quiet) true tables events one_left one_left_lem

abbrev two_wait : Runner
two_wait = record {
  queue = 42 ∷ 5 ∷ [];
  pending = 5 ∷ 42 ∷ [];
  workers = none ∷ none ∷ [];
  db = tables;
}

abbrev takes_between : List Event
takes_between = taken 0 ∷ scheduled 8 ∷ taken 1 ∷ []

abbrev both_in_work : Runner
both_in_work = record {
  queue = 8 ∷ [];
  pending = 8 ∷ 5 ∷ 42 ∷ [];
  workers = some 42 ∷ some 5 ∷ [];
  db = tables;
}

both_in_work_lem : run 256 (λ i. quiet) true takes_between two_wait ≡ some both_in_work
unfolding run step schedule
both_in_work_lem = refl

run-Turn_example : contains 5 (handed 256 (λ i. quiet) true takes_between two_wait) ≡ true
run-Turn_example =
    run-Turn 256 (λ i. quiet) true 5 takes_between two_wait both_in_work both_in_work_lem refl
      (omega arith)
