-- ===== src/Billing/Closure/Bounded.antt =====
-- No transaction of modules/billing/closure.py gives a session an identifier above a bound.
use ttcs_t926_k8s4_n1_csms.Base.{
  ℕ, ◌≤◌, ◌≡◌, refl, sym, ap, subst, ◌⊎◌, inl, inr, Bool, true, false, Option, none, some, List, [],
  ◌∷◌, All, keep, is_empty, not, ◌&&◌, if◌then◌else◌, arith,
}
use ttcs_t926_k8s4_n1_csms.Base.Text.{codes}
use ttcs_t926_k8s4_n1_csms.Billing.Tables.{ChargingSession, Invoice, find_session, put_session}
use ttcs_t926_k8s4_n1_csms.Wallet.Tables.{Wallet, Entry, Db, find_entry, find_driver_wallet}
use ttcs_t926_k8s4_n1_csms.Wallet.Service.{Posting, ghi_so_cai}
use ttcs_t926_k8s4_n1_csms.Wallet.Service.Outcome.{Matches, Inserts, stripped, ghi_so_cai-ok}
use ttcs_t926_k8s4_n1_csms.Wallet.Debit.{debit, tru_vi}
use ttcs_t926_k8s4_n1_csms.Wallet.Debit.Charged.{Payer, Debited, tru_vi-ok}
use ttcs_t926_k8s4_n1_csms.Billing.Invoicing.{
  InvoiceResult, ready, pending, needs_review, is_some, add_reason, lap_hoa_don,
}
use ttcs_t926_k8s4_n1_csms.Billing.Invoicing.Lapped.{Lapped, lap_hoa_don-Lapped}
use ttcs_t926_k8s4_n1_csms.Billing.Closure.{
  is_settlement_of, mismatch, settled_row, debit_if, complete, mark_mismatch, settle,
  settle_if_ready, close, chot_phien,
}
use ttcs_t926_k8s4_n1_csms.Wallet.Tx.{ok}
use ttcs_t926_k8s4_n1_csms.Wallet.Tx.Invert.{bind-ok, ok_state}

abbrev pub Below : ℕ → Db → Type 0
Below bound db = All (λ (c : ChargingSession). c.id ≤ bound) db.sessions

module _ (bound : ℕ) (arrive : Db → Db)
    (env : (db : Db) → Below bound db → Below bound (arrive db)) where
  ghi_so_cai-Below :
      (p : Posting) (e : Entry) (db db' : Db)
      → ghi_so_cai arrive p db ≡ ok (e, db')
      → Below bound db
      → Below bound db'
  ghi_so_cai-Below p e db db' h b =
      let s = (ghi_so_cai-ok arrive p e db db' h).0 in go s.wallet s.how
    where
      keeps : (x : Db) → Below bound x → x.sessions ≡ db'.sessions → Below bound db'
      keeps x a same = subst (All (λ (c : ChargingSession). c.id ≤ bound)) same a

      go :
          (w : Wallet)
          → (Matches (stripped p) e db × (db' ≡ db))
            ⊎ ((find_entry (stripped p).entry_type (stripped p).reference_id db.ledger ≡ none)
                × (Inserts (stripped p) w (arrive db) e db'
                    ⊎ (Matches (stripped p) e (arrive db) × (db' ≡ arrive db))))
          → Below bound db'
      go w (inl (_, same)) = keeps db b (ap (λ (x : Db). x.sessions) (sym same))
      go w (inr (_, inl (_, _, _, after))) =
          keeps (arrive db) (env db b) (ap (λ (x : Db). x.sessions) (sym after))
      go w (inr (_, inr (_, same))) =
          keeps (arrive db) (env db b) (ap (λ (x : Db). x.sessions) (sym same))

module _ (bound : ℕ) (arrive : ℕ → Db → Db)
    (env : (i : ℕ) (db : Db) → Below bound db → Below bound (arrive i db)) where
  tru_vi-Below :
      (fresh : ℕ) (v : Invoice) (o : Option Entry) (db db' : Db)
      → tru_vi arrive fresh (some v) none none none db ≡ ok (o, db')
      → Below bound db
      → Below bound db'
  unfolding Payer
  tru_vi-Below fresh v o db db' h b = go (tru_vi-ok arrive fresh v none none o db db' h)
    where
      ready : (i : ℕ) (db1 : Db) → Payer fresh v i db db1 → Below bound db1
      ready i db1 (inl same) = subst (Below bound) (sym same) b
      ready i db1 (inr (_, _, made)) = subst (Below bound) (sym made) b

      go : Debited arrive fresh v none o db db' → Below bound db'
      go (inl (_, _, same)) = subst (Below bound) (sym same) b
      go (inr (_, k)) =
          ghi_so_cai-Below bound (arrive k.payer) (env k.payer) (debit v k.payer none) k.entry
            k.ready db' k.posted (ready k.payer k.ready k.pays)

  put_session-Below :
      (c : ChargingSession) (cs : List ChargingSession)
      → c.id ≤ bound
      → All (λ (d : ChargingSession). d.id ≤ bound) cs
      → All (λ (d : ChargingSession). d.id ≤ bound) (put_session c cs)
  put_session-Below c [] h a = tt
  put_session-Below c (d ∷ cs) h (k, a) = (ground arith, put_session-Below c cs h a)

  find_session-Below :
      (i : ℕ) (cs : List ChargingSession) (c : ChargingSession)
      → find_session i cs ≡ some c
      → All (λ (d : ChargingSession). d.id ≤ bound) cs
      → c.id ≤ bound
  find_session-Below i [] c e a = cc
  find_session-Below i (d ∷ cs) c e (k, a) = ground (arith, find_session-Below i cs c, a)

  module _ (now fresh : ℕ) where
    Lapped-Below :
        (c : ChargingSession) (r : InvoiceResult) (db db' : Db)
        → c.id ≤ bound
        → Lapped now fresh c r db db'
        → Below bound db
        → Below bound db'
    Lapped-Below c r db db' k (inl (same, _)) b = subst (Below bound) same b
    Lapped-Below c r db db' k (inr (inl (reason, _, after))) b =
        subst (Below bound) (sym after)
          (put_session-Below (add_reason now fresh reason c) db.sessions k b)
    Lapped-Below c r db db' k (inr (inr (v, _, made))) b = subst (Below bound) (sym made.after) b

    complete-Below :
        (u : Bool) (v : Invoice) (c : ChargingSession) (r : InvoiceResult) (db db' : Db)
        → c.id ≤ bound
        → complete now fresh arrive u v c db ≡ ok (r, db')
        → Below bound db
        → Below bound db'
    unfolding complete debit_if
    complete-Below false v c r db db' k h b =
        subst (Below bound) (ok_state h)
          (put_session-Below (settled_row now fresh arrive v c) db.sessions k b)
    complete-Below true v c r db db' k h b =
        let (u, db1, e, h1) = bind-ok (debit_if now fresh arrive true v) _ db h in
        let (o, db2, e', h2) = bind-ok (tru_vi arrive fresh (some v) none none none) _ db e in
        let paid = subst (Below bound) (ok_state h2) (tru_vi-Below fresh v o db db2 e' b) in
        subst (Below bound) (ok_state h1)
          (put_session-Below (settled_row now fresh arrive v c) db1.sessions k paid)

    settle_if_ready-Below :
        (s : Bool) (c : ChargingSession) (o r : InvoiceResult) (db db' : Db)
        → c.id ≤ bound
        → settle_if_ready now fresh arrive s c o db ≡ ok (r, db')
        → Below bound db
        → Below bound db'
    unfolding settle mark_mismatch
    settle_if_ready-Below false c o r db db' k h b = subst (Below bound) (ok_state h) b
    settle_if_ready-Below true c (pending t) r db db' k h b = subst (Below bound) (ok_state h) b
    settle_if_ready-Below true c (needs_review t) r db db' k h b =
        subst (Below bound) (ok_state h) b
    settle_if_ready-Below true c (ready v) r db db' k h b =
        go (mismatch v (find_driver_wallet v.driver_id db.wallets) entries) h
      where
        entries : List Entry
        entries = keep (is_settlement_of c.id) db.ledger

        go :
            (m : Bool)
            → (if m
                  then mark_mismatch now fresh arrive c
                  else complete now fresh arrive (is_empty entries) v c)
                db
              ≡ ok (r, db')
            → Below bound db'
        go true q = subst (Below bound) (ok_state q) (
            put_session-Below (add_reason now fresh (codes "settlement_ledger_mismatch") c)
              db.sessions k b)
        go false q = complete-Below (is_empty entries) v c r db db' k q b

    pub chot_phien-Below :
        (settles : Bool) (session : ℕ) (r : InvoiceResult) (db db' : Db)
        → chot_phien now fresh arrive settles session db ≡ ok (r, db')
        → Below bound db
        → Below bound db'
    unfolding chot_phien close
    chot_phien-Below settles session r db db' h b = go (find_session session db.sessions) refl h
      where
        lapped :
            (o : InvoiceResult) (db1 : Db)
            → lap_hoa_don now fresh session db ≡ ok (o, db1)
            → Below bound db1
        lapped o db1 e =
            let (d, found, l) = lap_hoa_don-Lapped now fresh session o db db1 e in
            Lapped-Below d o db db1 (find_session-Below session db.sessions d found b) l b

        go :
            (x : Option ChargingSession)
            → find_session session db.sessions ≡ x
            → close now fresh arrive settles session x db ≡ ok (r, db')
            → Below bound db'
        go none f q = lapped r db' q
        go (some c) f q =
            let (o, db1, e, q') = bind-ok (lap_hoa_don now fresh session) _ db q in
            settle_if_ready-Below (settles && not (is_some c.settlement_completed_at)) c o r db1 db'
              (find_session-Below session db.sessions c f b) q' (lapped o db1 e)
