-- ===== src/Wallet/Debit/Charged.antt =====
-- The debit of an invoice (`tru_vi`, modules/wallet/service.py): once for its session.
use ttcs_t926_k8s4_n1_csms.Base.{
  ℕ, ◌≡◌, ◌≢◌, refl, sym, ap, subst, ◌∙◌, ◌⊎◌, inl, inr, Bool, true, false, not, Option, none, some,
  ◌∷◌, ◌==◌, arith,
}
use ttcs_t926_k8s4_n1_csms.Base.Int.{pos, neg, ltb_ℤ, eqb_ℤ}
use ttcs_t926_k8s4_n1_csms.Base.Text.{decimal}
use ttcs_t926_k8s4_n1_csms.Base.Text.Strip.{strip-decimal}
use ttcs_t926_k8s4_n1_csms.Wallet.Tables.{
  Wallet, charging_debit, Entry, Invoice, Db, find_wallet, find_driver_wallet, find_user,
  find_entry, ledger_total,
}
use ttcs_t926_k8s4_n1_csms.Wallet.Tx.{ok}
use ttcs_t926_k8s4_n1_csms.Wallet.Tx.Invert.{bind-ok, or_raise-ok, raise_if-ok}
use ttcs_t926_k8s4_n1_csms.Wallet.Service.{lock_wallet, ghi_so_cai}
use ttcs_t926_k8s4_n1_csms.Wallet.Service.Arrival.{Consistent, Arrives}
use ttcs_t926_k8s4_n1_csms.Wallet.Service.Outcome.{integer_vnd-ok}
use ttcs_t926_k8s4_n1_csms.Wallet.Service.Invariant.{ghi_so_cai-Consistent}
use ttcs_t926_k8s4_n1_csms.Wallet.Service.Effect.{ghi_so_cai-Effect}
use ttcs_t926_k8s4_n1_csms.Wallet.Debit.{
  new_wallet, driver_account, insert_wallet, ensure_driver_wallet, invoice_of, driver_wallet,
  paying_wallet, debit, charge, charge_unless_zero, tru_vi,
}

abbrev pub with_wallet : ℕ → ℕ → Db → Db
with_wallet fresh driver db = record db { wallets = new_wallet fresh driver ∷ db.wallets }

-- Who pays, and whether the driver's wallet was made for it.
unfoldable pub Payer : ℕ → Invoice → ℕ → Db → Db → Type 0
Payer fresh v i db db1 =
    (db1 ≡ db)
    ⊎ ((i ≡ fresh)
        × (find_driver_wallet v.driver_id db.wallets ≡ none)
        × (db1 ≡ with_wallet fresh v.driver_id db))

insert_wallet-ok :
    (fresh d : ℕ) (o : Option Wallet) (w : Wallet) (db db1 : Db)
    → insert_wallet fresh d o db ≡ ok (w, db1)
    → (db1 ≡ db) ⊎ ((o ≡ none) × (w ≡ new_wallet fresh d) × (db1 ≡ with_wallet fresh d db))
unfolding insert_wallet
insert_wallet-ok fresh d none w db db1 h = inr (refl, cc, cc)
insert_wallet-ok fresh d (some x) w db db1 h = inl cc

driver_wallet-ok :
    (fresh : ℕ) (v : Invoice) (i : ℕ) (db db1 : Db) (o : Option Wallet)
    → find_driver_wallet v.driver_id db.wallets ≡ o
    → driver_wallet fresh v.driver_id o db ≡ ok (i, db1)
    → Payer fresh v i db db1
unfolding driver_wallet ensure_driver_wallet Payer
driver_wallet-ok fresh v i db db1 (some w) f h = inl cc
driver_wallet-ok fresh v i db db1 none f h =
    let (w, db2, made, k) = bind-ok (ensure_driver_wallet fresh v.driver_id) _ db h in
    let (account, made') =
      raise_if-ok (not (driver_account (find_user v.driver_id db.users))) _ _ db made in
    let (kept, id) : (db2 ≡ db1) × (w.id ≡ i) = (cc, cc) in
    go w i db2 db1 kept id (
      insert_wallet-ok fresh v.driver_id (find_driver_wallet v.driver_id db.wallets) w db db2 made')
  where
    go :
        (w : Wallet) (i : ℕ) (db2 db1 : Db)
        → db2 ≡ db1
        → w.id ≡ i
        → (db2 ≡ db)
          ⊎ ((find_driver_wallet v.driver_id db.wallets ≡ none)
              × (w ≡ new_wallet fresh v.driver_id)
              × (db2 ≡ with_wallet fresh v.driver_id db))
        → Payer fresh v i db db1
    go w i db2 db1 kept id (inl same) = inl (sym kept ∙ same)
    go w i db2 db1 kept id (inr (free, new, same)) =
        inr (sym id ∙ ap (λ (x : Wallet). x.id) new, free, sym kept ∙ same)

pub paying_wallet-ok :
    (fresh : ℕ) (o : Option ℕ) (v : Invoice) (i : ℕ) (db db1 : Db)
    → paying_wallet fresh o v db ≡ ok (i, db1)
    → Payer fresh v i db db1
unfolding paying_wallet lock_wallet Payer
paying_wallet-ok fresh none v i db db1 h =
    driver_wallet-ok fresh v i db db1 (find_driver_wallet v.driver_id db.wallets) refl h
paying_wallet-ok fresh (some j) v i db db1 h =
    let (w, found, h1) = or_raise-ok (find_wallet j db.wallets) _ _ db h in
    let (owner, h2) = raise_if-ok (not (w.driver_id == v.driver_id)) _ _ db h1 in inl cc

module _ (arrive : ℕ → Db → Db) (fresh : ℕ) where
  -- What the debit of a nonzero invoice consists of.
  pub record Charge (v : Invoice) (actor : Option ℕ) (o : Option Entry) (db db' : Db) : Type 0 where
    pub payer : ℕ
    pub ready : Db
    pub entry : Entry
    pub pays : Payer fresh v payer db ready
    pub is : o ≡ some entry
    pub posted : ghi_so_cai (arrive payer) (debit v payer actor) ready ≡ ok (entry, db')

  charge-ok :
      (v : Invoice) (wid actor : Option ℕ) (o : Option Entry) (db db' : Db)
      → charge arrive fresh v wid actor db ≡ ok (o, db')
      → Charge v actor o db db'
  unfolding charge
  charge-ok v wid actor o db db' h =
      let (sign, h1) = raise_if-ok (ltb_ℤ v.total_vnd (pos 0)) _ _ db h in
      let (i, db1, paying, h2) = bind-ok (paying_wallet fresh wid v) _ db h1 in
      let (e, db2, posted, h3) = bind-ok (ghi_so_cai (arrive i) (debit v i actor)) _ db1 h2 in
      record {
        payer = i;
        ready = db1;
        entry = e;
        pays = paying_wallet-ok fresh wid v i db db1 paying;
        is = cc;
        posted = cc (posted, h3);
      }

  -- An invoice of 0 VND writes nothing; any other is charged.
  abbrev pub Debited : Invoice → Option ℕ → Option Entry → Db → Db → Type 0
  Debited v actor o db db' =
      ((v.total_vnd ≡ pos 0) × (o ≡ none) × (db' ≡ db))
      ⊎ ((v.total_vnd ≢ pos 0) × Charge v actor o db db')

  pub tru_vi-ok :
      (v : Invoice) (wid actor : Option ℕ) (o : Option Entry) (db db' : Db)
      → tru_vi arrive fresh (some v) none wid actor db ≡ ok (o, db')
      → Debited v actor o db db'
  unfolding tru_vi invoice_of charge_unless_zero
  tru_vi-ok v wid actor o db db' h =
      go (eqb_ℤ v.total_vnd (pos 0)) refl (integer_vnd-ok v.total_vnd _ db h).1
    where
      go :
          (b : Bool)
          → eqb_ℤ v.total_vnd (pos 0) ≡ b
          → charge_unless_zero arrive fresh b v wid actor db ≡ ok (o, db')
          → Debited v actor o db db'
      go true e k = inl (ground arith, cc, cc)
      go false e k = inr (ground arith, charge-ok v wid actor o db db' k)

with_wallet-Consistent :
    (fresh d : ℕ) (db : Db)
    → find_wallet fresh db.wallets ≡ none
    → ledger_total fresh db.ledger ≡ pos 0
    → Consistent db
    → Consistent (with_wallet fresh d db)
with_wallet-Consistent fresh d db unused empty c = record {
  cached = λ i w h. ground (arith, c.cached i w);
  ranged = λ i w h. ground (arith, c.ranged i w);
  lawful = c.lawful;
  owned = λ k w h. ground (arith, c.owned k w);
}

-- With an id for a new wallet that no row has, the debit of an invoice keeps the wallet tables
-- consistent, also where it makes the driver's wallet first.
pub tru_vi-Consistent :
    (arrive : ℕ → Db → Db) (fresh : ℕ) (v : Invoice) (wid actor : Option ℕ) (o : Option Entry)
    (db db' : Db)
    → ((i : ℕ) → Arrives i (arrive i))
    → find_wallet fresh db.wallets ≡ none
    → ledger_total fresh db.ledger ≡ pos 0
    → Consistent db
    → tru_vi arrive fresh (some v) none wid actor db ≡ ok (o, db')
    → Consistent db'
unfolding Payer
tru_vi-Consistent arrive fresh v wid actor o db db' env unused empty c run =
    go (tru_vi-ok arrive fresh v wid actor o db db' run)
  where
    before : (i : ℕ) (db1 : Db) → Payer fresh v i db db1 → Consistent db1
    before i db1 (inl same) = subst Consistent (sym same) c
    before i db1 (inr (_, _, same)) =
        subst Consistent (sym same) (with_wallet-Consistent fresh v.driver_id db unused empty c)

    go : Debited arrive fresh v actor o db db' → Consistent db'
    go (inl (_, _, same)) = subst Consistent (sym same) c
    go (inr (_, k)) =
        ghi_so_cai-Consistent (arrive k.payer) (debit v k.payer actor) (env k.payer) k.entry k.ready
          db' (before k.payer k.ready k.pays) k.posted

-- A debit that returns has, under the session's key, the row of the invoice's total with its sign
-- turned, and none for an invoice of 0 VND, which changes nothing.
pub tru_vi_row :
    (arrive : ℕ → Db → Db) (fresh : ℕ) (v : Invoice) (wid actor : Option ℕ) (o : Option Entry)
    (db db' : Db)
    → ((i : ℕ) → Arrives i (arrive i))
    → tru_vi arrive fresh (some v) none wid actor db ≡ ok (o, db')
    → ((v.total_vnd ≡ pos 0) × (o ≡ none) × (db' ≡ db))
      ⊎ ((v.total_vnd ≢ pos 0)
          × (e : Entry) × (o ≡ some e)
          × (e.amount_vnd ≡ neg v.total_vnd)
          × (find_entry charging_debit (decimal v.session_id) db'.ledger ≡ some e))
tru_vi_row arrive fresh v wid actor o db db' env run =
    go (tru_vi-ok arrive fresh v wid actor o db db' run)
  where
    go :
        Debited arrive fresh v actor o db db'
        → ((v.total_vnd ≡ pos 0) × (o ≡ none) × (db' ≡ db))
          ⊎ ((v.total_vnd ≢ pos 0)
              × (e : Entry) × (o ≡ some e)
              × (e.amount_vnd ≡ neg v.total_vnd)
              × (find_entry charging_debit (decimal v.session_id) db'.ledger ≡ some e))
    go (inl z) = inl z
    go (inr (nz, k)) =
        let f =
          ghi_so_cai-Effect (arrive k.payer) (debit v k.payer actor) k.entry k.ready db'
            (env k.payer) k.posted in
        inr (
          nz,
          k.entry,
          k.is,
          f.amount,
          subst (λ t. find_entry charging_debit t db'.ledger ≡ some k.entry)
              (strip-decimal v.session_id) f.row,
        )
