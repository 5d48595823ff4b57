-- ===== src/Wallet/Repair/Restores.antt =====
-- What the repair of a cached balance (`phuc_hoi_so_du_cache`, modules/wallet/service.py) does.
use ttcs_t926_k8s4_n1_csms.Base.{
  ℕ, ◌≡◌, ◌≢◌, refl, ap, ◌∙◌, ◌⊎◌, inl, inr, Bool, true, false, not, Option, some, List, [], ◌∷◌,
  ◌==◌, arith,
}
use ttcs_t926_k8s4_n1_csms.Base.Int.{ℤ, eqb_ℤ}
use ttcs_t926_k8s4_n1_csms.Base.Text.{Text, codes}
use ttcs_t926_k8s4_n1_csms.Wallet.Uuid.{uuid_text}
use ttcs_t926_k8s4_n1_csms.Wallet.Tables.{
  Wallet, Db, find_wallet, find_audit, find_user, ledger_total, set_balance,
}
use ttcs_t926_k8s4_n1_csms.Wallet.Tx.{ok}
use ttcs_t926_k8s4_n1_csms.Wallet.Tx.Invert.{bind-ok, or_raise-ok, raise_if-ok}
use ttcs_t926_k8s4_n1_csms.Wallet.Service.{in_range, lock_wallet, require_admin, active_admin}
use ttcs_t926_k8s4_n1_csms.Wallet.Service.Outcome.{integer_vnd-ok}
use ttcs_t926_k8s4_n1_csms.Wallet.Service.Invariant.{
  with_balance, find_wallet-set_balance_self, find_wallet-set_balance_ne,
}
use ttcs_t926_k8s4_n1_csms.Wallet.Journal.{ghi_nhat_ky, identifier, any_identifier}
use ttcs_t926_k8s4_n1_csms.Wallet.Repair.{
  bad_reason, repair_audit, repaired, repair_unless, phuc_hoi_so_du_cache,
}

-- What the audit log's writer leaves alone.
pub record Unlogged (db db' : Db) : Type 0 where
  pub wallets : db'.wallets ≡ db.wallets
  pub ledger : db'.ledger ≡ db.ledger
  pub audits : db'.audits ≡ db.audits

pub ghi_nhat_ky-Unlogged :
    (actor : Option ℕ) (a o i : Text) (u : Unit {0}) (db db' : Db)
    → ghi_nhat_ky actor a o i db ≡ ok (u, db')
    → Unlogged db db'
unfolding ghi_nhat_ky identifier any_identifier
ghi_nhat_ky-Unlogged actor a o i u db db' h = record {
  wallets = ground arith;
  ledger = ground arith;
  audits = ground arith;
}

-- The ledger is as it was, an administrator and a reason are given, the wallet's balance is the sum
-- of its ledger rows, its status is as it was, and the other wallets are as they were. Either the
-- balance was right, and nothing changed, or an audit row holds both balances.
pub record Restored (fresh i actor : ℕ) (reason : Text) (w' : Wallet) (db db' : Db) : Type 0 where
  pub before : Wallet
  pub was : find_wallet i db.wallets ≡ some before
  pub is :
      find_wallet i db'.wallets ≡ some (record before { balance_vnd = ledger_total i db.ledger })
  pub returned : w' ≡ record before { balance_vnd = ledger_total i db.ledger }
  pub fits : in_range (ledger_total i db.ledger) ≡ true
  pub ledger : db'.ledger ≡ db.ledger
  pub others : (j : ℕ) → (i == j) ≡ false → find_wallet j db'.wallets ≡ find_wallet j db.wallets
  pub admin : active_admin (find_user actor db.users) ≡ true
  pub explained : bad_reason reason ≡ false
  pub recorded :
      ((before.balance_vnd ≡ ledger_total i db.ledger) × (db' ≡ db))
      ⊎ ((before.balance_vnd ≢ ledger_total i db.ledger)
          × (find_audit fresh db'.audits
              ≡ some (repair_audit fresh before (ledger_total i db.ledger) actor reason)))

-- The change that `repair_unless` makes.
record Change (fresh i actor : ℕ) (reason : Text) (w w' : Wallet) (b : ℤ) (db db' : Db)
    : Type 0 where
  is : find_wallet i db'.wallets ≡ some (record w { balance_vnd = b })
  returned : w' ≡ record w { balance_vnd = b }
  ledger : db'.ledger ≡ db.ledger
  others : (j : ℕ) → (i == j) ≡ false → find_wallet j db'.wallets ≡ find_wallet j db.wallets
  recorded :
      ((w.balance_vnd ≡ b) × (db' ≡ db))
      ⊎ ((w.balance_vnd ≢ b)
          × (find_audit fresh db'.audits ≡ some (repair_audit fresh w b actor reason)))

find_wallet-id : (i : ℕ) (w : Wallet) (db : Db) → find_wallet i db.wallets ≡ some w → w.id ≡ i
find_wallet-id i w db h = go db.wallets h
  where
    go : (ws : List Wallet) → find_wallet i ws ≡ some w → w.id ≡ i
    go [] k = cc
    go (v ∷ vs) k = ground (arith, go vs)

module _ (fresh i actor : ℕ) (reason : Text) (w w' : Wallet) (b : ℤ) (db db' : Db) where
  change :
      (right : Bool)
      → eqb_ℤ w.balance_vnd b ≡ right
      → find_wallet i db.wallets ≡ some w
      → repair_unless right fresh w b actor reason db ≡ ok (w', db')
      → Change fresh i actor reason w w' b db db'
  unfolding repair_unless
  change true e f h =
      let same : w.balance_vnd ≡ b = ground arith in
      let kept : db' ≡ db = cc in
      let w_is : w ≡ record w { balance_vnd = b } = ap (λ x. record w { balance_vnd = x }) same in
      record {
        is = ap (λ (x : Db). find_wallet i x.wallets) kept ∙ f ∙ ap some w_is;
        returned = cc (h, w_is);
        ledger = ap (λ (x : Db). x.ledger) kept;
        others = λ j n. ap (λ (x : Db). find_wallet j x.wallets) kept;
        recorded = inl (same, kept);
      }
  change false e f h =
      let audit = repair_audit fresh w b actor reason in
      let (u, db1, run, k) =
        bind-ok
          (ghi_nhat_ky (some actor) (codes "wallet.cache_repaired") (codes "wallet_audit")
            (uuid_text fresh))
          _ (repaired audit db) h in
      let l =
        ghi_nhat_ky-Unlogged (some actor) (codes "wallet.cache_repaired") (codes "wallet_audit")
          (uuid_text fresh) u (repaired audit db) db1 run in
      let kept : db' ≡ db1 = cc in
      let id = find_wallet-id i w db f in
      let ws : db'.wallets ≡ set_balance i b db.wallets =
        ap (λ (x : Db). x.wallets) kept ∙ l.wallets ∙ ap (λ n. set_balance n b db.wallets) id in
      record {
        is =
            ap (find_wallet i) ws
            ∙ find_wallet-set_balance_self i b db.wallets
            ∙ ap (with_balance b) f;
        returned = cc;
        ledger = ap (λ (x : Db). x.ledger) kept ∙ l.ledger;
        others = λ j n. ap (find_wallet j) ws ∙ find_wallet-set_balance_ne i j b db.wallets n;
        recorded = inr (
          ground arith,
          ap (λ (x : Db). find_audit fresh x.audits) kept
              ∙ ap (find_audit fresh) l.audits
              ∙ ground arith,
        );
      }

-- A repair that returns has set the wallet's cached balance to the sum of its ledger rows and left
-- the ledger, the wallet's status and every other wallet alone; a balance that was wrong is recorded
-- in an audit row by an active administrator with a reason.
pub phuc_hoi_so_du_cache-Restored :
    (fresh i actor : ℕ) (reason : Text) (w' : Wallet) (db db' : Db)
    → phuc_hoi_so_du_cache fresh i actor reason db ≡ ok (w', db')
    → Restored fresh i actor reason w' db db'
unfolding phuc_hoi_so_du_cache lock_wallet require_admin
phuc_hoi_so_du_cache-Restored fresh i actor reason w' db db' h =
    let (explained, h1) = raise_if-ok (bad_reason reason) _ _ db h in
    let (admin, h2) = raise_if-ok (not (active_admin (find_user actor db.users))) _ _ db h1 in
    let (w, was, h3) = or_raise-ok (find_wallet i db.wallets) _ _ db h2 in
    let (fits, h4) = integer_vnd-ok (ledger_total i db.ledger) _ db h3 in
    let c =
      change fresh i actor reason w w' (ledger_total i db.ledger) db db'
        (eqb_ℤ w.balance_vnd (ledger_total i db.ledger)) refl was h4 in
    record {
      before = w;
      was = was;
      is = c.is;
      returned = c.returned;
      fits = fits;
      ledger = c.ledger;
      others = c.others;
      admin = ground arith;
      explained = explained;
      recorded = c.recorded;
    }
