-- ===== src/Billing/Closure/Untouched.antt =====
-- A transaction that moves no money and settles no session (modules/billing/closure.py).
use ttcs_t926_k8s4_n1_csms.Base.{
  ℕ, ◌≡◌, refl, sym, ap, subst, ◌∙◌, inl, inr, false, Option, none, some, List, [], ◌∷◌, ◌==◌,
  Bool-cases, arith,
}
use ttcs_t926_k8s4_n1_csms.Billing.Tables.{ChargingSession, find_session, put_session}
use ttcs_t926_k8s4_n1_csms.Wallet.Tables.{Db}

abbrev pub SameMoney : Db → Db → Type 0
SameMoney db db' = (db'.wallets ≡ db.wallets) × (db'.ledger ≡ db.ledger)

abbrev pub time_of : Option ChargingSession → Option (Option ℕ)
time_of none = none
time_of (some c) = some c.settlement_completed_at

-- When a session was settled.
abbrev pub completed_at : ℕ → List ChargingSession → Option (Option ℕ)
completed_at i cs = time_of (find_session i cs)

-- No money moved, and no session was settled or lost its settlement.
abbrev pub Untouched : Db → Db → Type 0
Untouched db db' =
    SameMoney db db' × ((i : ℕ) → completed_at i db'.sessions ≡ completed_at i db.sessions)

pub Untouched-refl : (db : Db) → Untouched db db
Untouched-refl db = ((refl, refl), λ i. refl)

pub Untouched-trans : (a b c : Db) → Untouched a b → Untouched b c → Untouched a c
Untouched-trans a b c ((w, l), f) ((w', l'), g) = ((w' ∙ w, l' ∙ l), λ i. g i ∙ f i)

pub find_session-id :
    (i : ℕ) (c : ChargingSession) (cs : List ChargingSession)
    → find_session i cs ≡ some c
    → c.id ≡ i
find_session-id i c [] h = cc
find_session-id i c (d ∷ ds) h = ground (arith, find_session-id i c ds)

find_session-put_own :
    (d c : ChargingSession) (cs : List ChargingSession)
    → find_session d.id cs ≡ some c
    → find_session d.id (put_session d cs) ≡ some d
find_session-put_own d c [] h = cc
find_session-put_own d c (x ∷ xs) h = ground (arith, find_session-put_own d c xs)

find_session-put_other :
    (i : ℕ) (d : ChargingSession) (cs : List ChargingSession)
    → (d.id == i) ≡ false
    → find_session i (put_session d cs) ≡ find_session i cs
find_session-put_other i d [] h = refl
find_session-put_other i d (x ∷ xs) h = ground (arith, find_session-put_other i d xs h)

-- A row with its time of settlement kept does not change when any session was settled.
pub completed_at-put_session :
    (i : ℕ) (d c : ChargingSession) (cs : List ChargingSession)
    → d.settlement_completed_at ≡ c.settlement_completed_at
    → find_session d.id cs ≡ some c
    → completed_at i (put_session d cs) ≡ completed_at i cs
completed_at-put_session i d c cs same found = elim (Bool-cases (d.id == i)) [
  | inl e ↦
      let at : d.id ≡ i = ground arith in
      subst (λ x. completed_at x (put_session d cs) ≡ completed_at x cs) at
        (ap time_of (find_session-put_own d c cs found) ∙ ap some same ∙ ap time_of (sym found))
  | inr e ↦ ap time_of (find_session-put_other i d cs e)
]
