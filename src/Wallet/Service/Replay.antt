-- ===== src/Wallet/Service/Replay.antt =====
-- `ghi_so_cai` (modules/wallet/service.py) posts once under a key, and answers a retry with the row.
use ttcs_t926_k8s4_n1_csms.Base.{
  ℕ, ◌≡◌, refl, ap, ◌∙◌, ◌⊎◌, inl, inr, Bool, true, false, not, ◌&&◌, Option, none, some, List, ◌∷◌,
  arith,
}
use ttcs_t926_k8s4_n1_csms.Base.Int.{ℤ, ◌+ℤ◌}
use ttcs_t926_k8s4_n1_csms.Base.Text.{Text, text_eq_refl, strip}
use ttcs_t926_k8s4_n1_csms.Wallet.Tables.{
  Wallet, Entry, EntryType, type_eq, WalletAudit, Db, find_wallet, find_entry, find_audit,
  gateway_topup, manual_topup, charging_debit, adjustment, reservation_fee, unknown_type,
}
use ttcs_t926_k8s4_n1_csms.Wallet.Tx.{Result, ok, err, wallet_locked, raise_if, ◌>>=◌, ◌>>◌}
use ttcs_t926_k8s4_n1_csms.Wallet.Tx.Invert.{bind-ok, bind-run, or_raise-run}
use ttcs_t926_k8s4_n1_csms.Wallet.Service.{
  Posting, matching_entry, matches_if_found, return_or_post, checked, evidence, is_locked,
  is_adjustment, lock_wallet, integer_vnd, settle, ghi_so_cai, active_admin, find_actor,
}
use ttcs_t926_k8s4_n1_csms.Wallet.Service.Arrival.{Arrives}
use ttcs_t926_k8s4_n1_csms.Wallet.Service.Evidence.{evidence-again}
use ttcs_t926_k8s4_n1_csms.Wallet.Service.Outcome.{
  new_row, inserted_into, Matches, Inserts, stripped, checked-ok, settle-ok,
}

type_eq_refl : (t : EntryType) → type_eq t t ≡ true
type_eq_refl gateway_topup = refl
type_eq_refl manual_topup = refl
type_eq_refl charging_debit = refl
type_eq_refl adjustment = refl
type_eq_refl reservation_fee = refl
type_eq_refl unknown_type = refl

-- What a posting leaves: the row under the key, the users and the audits.
pub record Recorded (p : Posting) (db : Db) (e : Entry) (db' : Db) : Type 0 where
  pub matches : Matches p e db'
  pub users : db'.users ≡ db.users
  pub audits :
      (j : ℕ) (a : WalletAudit) → find_audit j db.audits ≡ some a → find_audit j db'.audits ≡ some a

-- Tables after other transactions: no ledger row and no audit row is gone, and the actor has not
-- ceased to be an active administrator.
pub record Later (actor : Option ℕ) (db later : Db) : Type 0 where
  pub entries :
      (t : EntryType) (r : Text) (e : Entry)
      → find_entry t r db.ledger ≡ some e
      → find_entry t r later.ledger ≡ some e
  pub audits :
      (j : ℕ) (a : WalletAudit)
      → find_audit j db.audits ≡ some a
      → find_audit j later.audits ≡ some a
  pub admin :
      active_admin (find_actor actor db.users) ≡ true
      → active_admin (find_actor actor later.users) ≡ true

pub find_entry-new :
    (p : Posting) (after : ℤ) (i : ℕ) (l : List Entry)
    → find_entry p.entry_type p.reference_id (new_row p after i ∷ l) ≡ some (new_row p after i)
find_entry-new p after i l = rw (type_eq_refl p.entry_type, text_eq_refl p.reference_id)

module _ (arrive : Db → Db) (p : Posting) (env : Arrives p.wallet_id arrive) where
  Recorded-insert :
      (w : Wallet) (e : Entry) (db db' : Db) → Inserts p w (arrive db) e db' → Recorded p db e db'
  Recorded-insert w e db db' (fits, fresh, e_is, db'_is) =
      let after = w.balance_vnd +ℤ p.amount_vnd in
      let r : Recorded p db (new_row p after (arrive db).next_ledger_id)
          (inserted_into p after (arrive db)) =
        record {
          matches =
              (find_entry-new p after (arrive db).next_ledger_id (arrive db).ledger, refl, refl);
          users = env.users db;
          audits = env.audits db;
        } in
      rw (e_is, db'_is) r

  Recorded-settled :
      (w : Wallet) (e : Entry) (db db' : Db)
      → (Matches p e db × (db' ≡ db))
        ⊎ ((find_entry p.entry_type p.reference_id db.ledger ≡ none)
            × (Inserts p w (arrive db) e db' ⊎ (Matches p e (arrive db) × (db' ≡ arrive db))))
      → Recorded p db e db'
  Recorded-settled w e db db' (inl (m, same)) =
      rw same (record { matches = m; users = refl; audits = λ j a h. h })
  Recorded-settled w e db db' (inr (_, inl i)) = Recorded-insert w e db db' i
  Recorded-settled w e db db' (inr (_, inr (m, same))) =
      rw same (record { matches = m; users = env.users db; audits = env.audits db })

matches_if_found-run :
    (o : Option Entry) (p : Posting) (e : Entry) (db : Db)
    → o ≡ some e
    → e.wallet_id ≡ p.wallet_id
    → e.amount_vnd ≡ p.amount_vnd
    → matches_if_found o p db ≡ ok (tt, db)
unfolding matching_entry
matches_if_found-run none p e db f mine amount = cc
matches_if_found-run (some row) p e db f mine amount =
    let same : row ≡ e = cc in rw same (ground arith)

-- The answer of a repeated posting, by whether its wallet refuses it.
abbrev pub answer : Bool → Entry → Db → Result (Entry × Db)
answer true e db = err wallet_locked
answer false e db = ok (e, db)

abbrev pub refuses : Wallet → Posting → Bool
refuses w p = is_locked w.status && not (is_adjustment p.entry_type)

module _ (arrive : Db → Db) where
  settle-run :
      (p : Posting) (w : Wallet) (e : Entry) (a : Option WalletAudit) (db : Db)
      → find_wallet p.wallet_id db.wallets ≡ some w
      → Matches p e db
      → evidence p db ≡ ok (a, db)
      → settle arrive p db ≡ answer (refuses w p) e db
  unfolding settle lock_wallet
  settle-run p w e a db row (f, mine, amount) evident =
      let o = find_entry p.entry_type p.reference_id db.ledger in
      or_raise-run (find_wallet p.wallet_id db.wallets) _ _ db row
      ∙ bind-run (matches_if_found o p) _ db (matches_if_found-run o p e db f mine amount)
      ∙ go (refuses w p)
    where
      go :
          (b : Bool)
          → (do
            raise_if b wallet_locked
            audit ← evidence p
            return_or_post arrive (find_entry p.entry_type p.reference_id db.ledger) p w audit)
              db
            ≡ answer b e db
      go true = refl
      go false = bind-run (evidence p) _ db evident ∙ ap (λ x. return_or_post arrive x p w a db) f

checked-run :
    (p : Posting) (db db1 db' : Db) {p' : Posting}
    → checked p db ≡ ok (p', db1)
    → checked p db' ≡ ok (p', db')
unfolding checked integer_vnd
checked-run p db db1 db' h = ground arith

-- Once a posting returned a row, the same call in any later transaction changes nothing, where no ledger
-- row and no audit row is gone since and the actor, if an active administrator then, still is one: it
-- returns that row, or raises if the wallet is locked by then and the posting is no adjustment. A retry
-- neither posts nor charges twice.
pub ghi_so_cai_replay :
    (arrive again : Db → Db) (p : Posting) (e : Entry) (w : Wallet) (db db' later : Db)
    → Arrives p.wallet_id arrive
    → ghi_so_cai arrive p db ≡ ok (e, db')
    → Later p.actor_id db' later
    → find_wallet p.wallet_id later.wallets ≡ some w
    → ghi_so_cai again p later ≡ answer (refuses w p) e later
unfolding ghi_so_cai
ghi_so_cai_replay arrive again p e w db db' later env run kept_later row =
    let (p', db1, c, k) = bind-ok (checked p) _ db run in
    let (kept, p'_is, _, _) = checked-ok p p' db db1 c in
    let s = settle-ok arrive (stripped p) e db db' (cc (k, kept, p'_is)) in
    let r = Recorded-settled arrive (stripped p) env s.wallet e db db' s.how in
    let (there, mine, amount) = r.matches in
    bind-run (checked p) (settle again) later (checked-run p db db1 later c)
    ∙ ap (λ q. settle again q later) p'_is
    ∙ settle-run again (stripped p) w e s.audit later row
        (kept_later.entries p.entry_type (strip p.reference_id) e there, mine, amount)
        (evidence-again (stripped p) s.audit db db later s.evident
          (λ h. kept_later.admin (rw r.users h)) (λ j a h. kept_later.audits j a (r.audits j a h)))
