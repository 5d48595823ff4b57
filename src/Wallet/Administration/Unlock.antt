-- ===== src/Wallet/Administration/Unlock.antt =====
-- When `mo_khoa_vi` unlocks a wallet (modules/wallet/administration.py).
use ttcs_t926_k8s4_n1_csms.Base.{
  ℕ, ◌≡◌, refl, ap, ◌∙◌, Bool, true, false, not, some, List, [], ◌∷◌, is_empty, ◌==◌, if◌then◌else◌,
  arith,
}
use ttcs_t926_k8s4_n1_csms.Base.Text.{Text, codes}
use ttcs_t926_k8s4_n1_csms.Wallet.Uuid.{uuid_text}
use ttcs_t926_k8s4_n1_csms.Wallet.Tables.{
  Wallet, WalletStatus, active, Db, find_wallet, find_user, set_status,
}
use ttcs_t926_k8s4_n1_csms.Wallet.Tx.{ok}
use ttcs_t926_k8s4_n1_csms.Wallet.Tx.Invert.{bind-ok, or_raise-ok, raise_if-ok}
use ttcs_t926_k8s4_n1_csms.Wallet.Service.{lock_wallet, require_admin, active_admin, is_locked}
use ttcs_t926_k8s4_n1_csms.Wallet.Journal.{ghi_nhat_ky}
use ttcs_t926_k8s4_n1_csms.Wallet.Repair.{bad_reason}
use ttcs_t926_k8s4_n1_csms.Wallet.Repair.Restores.{ghi_nhat_ky-Unlogged}
use ttcs_t926_k8s4_n1_csms.Wallet.Reconcile.{wallet_issues}
use ttcs_t926_k8s4_n1_csms.Wallet.Reconcile.Turn.{find_wallet-id}
use ttcs_t926_k8s4_n1_csms.Wallet.Administration.{unlock_if, mo_khoa_vi}

find_wallet-set_status :
    (j i : ℕ) (s : WalletStatus) (w : Wallet) (ws : List Wallet)
    → find_wallet j ws ≡ some w
    → find_wallet j (set_status i s ws) ≡ some (if j == i then record w { status = s } else w)
find_wallet-set_status j i s w [] h = cc
find_wallet-set_status j i s w (v ∷ vs) h = ground (arith, find_wallet-set_status j i s w vs)

-- The wallet is active and all else in the tables of wallets and of the ledger is as it was.
pub record Unlocked (i : ℕ) (w : Wallet) (db db' : Db) : Type 0 where
  pub is : find_wallet i db'.wallets ≡ some (record w { status = active })
  pub others :
      (j : ℕ) (v : Wallet)
      → (j == i) ≡ false
      → find_wallet j db.wallets ≡ some v
      → find_wallet j db'.wallets ≡ some v
  pub ledger : db'.ledger ≡ db.ledger

unlock_if-ok :
    (b : Bool) (i actor : ℕ) (w w' : Wallet) (db db' : Db)
    → is_locked w.status ≡ b
    → find_wallet i db.wallets ≡ some w
    → unlock_if b w actor db ≡ ok (w', db')
    → Unlocked i w db db'
unfolding unlock_if
unlock_if-ok false i actor w w' db db' e f h =
    let kept : db' ≡ db = cc in
    let open_ : w.status ≡ active = ground arith in
    record {
      is =
          ap (λ (x : Db). find_wallet i x.wallets) kept
          ∙ f
          ∙ ap (λ (s : WalletStatus). some (record w { status = s })) open_;
      others = λ j v n g. ap (λ (x : Db). find_wallet j x.wallets) kept ∙ g;
      ledger = ap (λ (x : Db). x.ledger) kept;
    }
unlock_if-ok true i actor w w' db db' e f h =
    let now : Db = record db { wallets = set_status w.id active db.wallets } in
    let (u, db1, run, k) =
      bind-ok (ghi_nhat_ky (some actor) (codes "wallet.unlocked") (codes "wallet") (uuid_text w.id))
        _ now h in
    let l =
      ghi_nhat_ky-Unlogged (some actor) (codes "wallet.unlocked") (codes "wallet") (uuid_text w.id)
        u now db1 run in
    let kept : db' ≡ db1 = cc in
    let ws : db'.wallets ≡ set_status i active db.wallets =
      ap (λ (x : Db). x.wallets) kept
      ∙ l.wallets
      ∙ ap (λ n. set_status n active db.wallets) (find_wallet-id i w db.wallets f) in
    record {
      is = ap (find_wallet i) ws ∙ find_wallet-set_status i i active w db.wallets f ∙ ground arith;
      others = λ j v n g.
          ap (find_wallet j) ws ∙ find_wallet-set_status j i active v db.wallets g ∙ rw n refl;
      ledger = ap (λ (x : Db). x.ledger) kept ∙ l.ledger;
    }

-- A wallet is unlocked only by an active administrator with a reason, and only where its inspection
-- finds no issue; its balance, the other wallets and the ledger are as they were.
pub mo_khoa_vi-Unlocked :
    (i actor : ℕ) (reason : Text) (w' : Wallet) (db db' : Db)
    → mo_khoa_vi i actor reason db ≡ ok (w', db')
    → (bad_reason reason ≡ false)
      × (active_admin (find_user actor db.users) ≡ true)
      × (w : Wallet) × (find_wallet i db.wallets ≡ some w)
      × (is_empty (wallet_issues w db).1 ≡ true)
      × Unlocked i w db db'
unfolding mo_khoa_vi lock_wallet require_admin
mo_khoa_vi-Unlocked i actor reason w' db db' h =
    let (explained, h1) = raise_if-ok (bad_reason reason) _ _ db h in
    let (admin, h2) = raise_if-ok (not (active_admin (find_user actor db.users))) _ _ db h1 in
    let (w, found, h3) = or_raise-ok (find_wallet i db.wallets) _ _ db h2 in
    let (clean, h4) = raise_if-ok (not (is_empty (wallet_issues w db).1)) _ _ db h3 in
    (
      explained,
      ground arith,
      w,
      found,
      ground arith,
      unlock_if-ok (is_locked w.status) i actor w w' db db' refl found h4,
    )
