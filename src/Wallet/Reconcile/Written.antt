-- ===== src/Wallet/Reconcile/Written.antt =====
-- A reconciliation (`doi_chieu_so_du`, modules/wallet/reconciliation.py) returns: the line of the
-- audit log is one that `ghi_nhat_ky` writes.
use ttcs_t926_k8s4_n1_csms.Base.{
  ℕ, zero, suc, ◌/◌, ◌%◌, ◌≡◌, refl, ◌∙◌, Bool, true, false, Option, none, some, List, [], ◌∷◌,
  ◌++◌, map, is_empty, if◌then◌else◌, arith,
}
use ttcs_t926_k8s4_n1_csms.Base.Text.{Text, codes, strip, strip_left, is_space}
use ttcs_t926_k8s4_n1_csms.Base.Text.Strip.{Plain, strip-Plain}
use ttcs_t926_k8s4_n1_csms.Wallet.Uuid.{hex_digit, hex_text, uuid_text}
use ttcs_t926_k8s4_n1_csms.Wallet.Tables.{Wallet, locked, Db, find_wallet, set_status}
use ttcs_t926_k8s4_n1_csms.Wallet.Tx.{Result, ok, pure}
use ttcs_t926_k8s4_n1_csms.Wallet.Tx.Invert.{bind-run}
use ttcs_t926_k8s4_n1_csms.Wallet.Journal.{ghi_nhat_ky, identifier, any_identifier, add_log}
use ttcs_t926_k8s4_n1_csms.Wallet.Reconcile.{
  lock_if, inspect, lock_suspects, doi_chieu_so_du, selected, wallet_ids,
}

hex_digit-not_space : (n : ℕ) → is_space (hex_digit (n % 16)) ≡ false
hex_digit-not_space n = ground arith

hex_text-Plain : (k n : ℕ) (t : Text) → Plain t → Plain (hex_text k n t)
unfolding hex_text
hex_text-Plain zero n t h = h
hex_text-Plain (suc k) n t h =
    hex_text-Plain k (n / 16) (hex_digit (n % 16) ∷ t) (hex_digit-not_space n, h)

hex_text-not_empty : (k n c : ℕ) (t : Text) → is_empty (hex_text k n (c ∷ t)) ≡ false
unfolding hex_text
hex_text-not_empty zero n c t = refl
hex_text-not_empty (suc k) n c t = hex_text-not_empty k (n / 16) (hex_digit (n % 16)) (c ∷ t)

uuid_text-Plain : (n : ℕ) → Plain (uuid_text n)
unfolding uuid_text
uuid_text-Plain n = hex_text-Plain 8 _ _ (
  refl,
  hex_text-Plain 4 _ _
      (refl, hex_text-Plain 4 _ _ (refl, hex_text-Plain 4 _ _ (refl, hex_text-Plain 12 _ _ tt))),
)

uuid_text-not_empty : (n : ℕ) → is_empty (uuid_text n) ≡ false
unfolding uuid_text
uuid_text-not_empty n = hex_text-not_empty 8 _ _ _

strip-uuid_text : (n : ℕ) → strip (uuid_text n) ≡ uuid_text n
strip-uuid_text n = strip-Plain (uuid_text n) (uuid_text-Plain n)

strip-locked : strip (codes "wallet.reconciliation_locked") ≡ codes "wallet.reconciliation_locked"
unfolding strip strip_left
strip-locked = refl

strip-wallet : strip (codes "wallet") ≡ codes "wallet"
unfolding strip strip_left
strip-wallet = refl

abbrev locked_line : ℕ → Db → Db
locked_line n = add_log none (codes "wallet.reconciliation_locked") (codes "wallet") (uuid_text n)

ghi_nhat_ky-line :
    (n : ℕ) (db : Db)
    → ghi_nhat_ky none (codes "wallet.reconciliation_locked") (codes "wallet") (uuid_text n) db
      ≡ ok (tt, locked_line n db)
unfolding ghi_nhat_ky identifier any_identifier
ghi_nhat_ky-line n db =
    rw (strip-locked, strip-wallet, strip-uuid_text n, uuid_text-not_empty n) refl

wallet_ids-set_status :
    (i : ℕ) (ws : List Wallet)
    → map (λ (w : Wallet). w.id) (set_status i locked ws) ≡ map (λ (w : Wallet). w.id) ws
wallet_ids-set_status i [] = refl
wallet_ids-set_status i (w ∷ ws) = ground (arith, wallet_ids-set_status i ws)

-- A return that leaves the identifiers of the wallets as they were.
abbrev Returns : Result (List ℕ × Db) → Db → Type 0
Returns m db = (out : List ℕ) × (db' : Db) × (m ≡ ok (out, db')) × (wallet_ids db' ≡ wallet_ids db)

lock_if-Returns : (b : Bool) (w : Wallet) (db : Db) → Returns (lock_if b w db) db
unfolding lock_if
lock_if-Returns false w db = ([], db, refl, refl)
lock_if-Returns true w db =
    let now : Db = record db { wallets = set_status w.id locked db.wallets } in
    (
      w.id ∷ [],
      locked_line w.id now,
      bind-run
          (ghi_nhat_ky none (codes "wallet.reconciliation_locked") (codes "wallet")
            (uuid_text w.id))
          (λ _. pure (w.id ∷ [])) now (ghi_nhat_ky-line w.id now),
      wallet_ids-set_status w.id db.wallets,
    )

inspect-Returns : (o : Option Wallet) (db : Db) → Returns (inspect o db) db
unfolding inspect
inspect-Returns none db = ([], db, refl, refl)
inspect-Returns (some w) db = lock_if-Returns _ w db

lock_suspects-Returns :
    (held : ℕ → Bool) (l : List ℕ) (db : Db) → Returns (lock_suspects held l db) db
unfolding lock_suspects
lock_suspects-Returns held [] db = ([], db, refl, refl)
lock_suspects-Returns held (i ∷ l) db =
    let o = if held i then none else find_wallet i db.wallets in
    let (here, db1, e, same) = inspect-Returns o db in
    let (rest, db2, e', same') = lock_suspects-Returns held l db1 in
    (
      here ++ rest,
      db2,
      bind-run (inspect o) _ db e ∙ bind-run (lock_suspects held l) (λ r. pure (here ++ r)) db1 e',
      same' ∙ same,
    )

-- A reconciliation returns and leaves the identifiers of the wallets as they were.
pub doi_chieu_so_du-returns :
    (held : ℕ → Bool) (wallet_id : Option ℕ) (db : Db)
    → (out : List ℕ) × (db' : Db) × (doi_chieu_so_du held wallet_id db ≡ ok (out, db'))
      × (wallet_ids db' ≡ wallet_ids db)
unfolding doi_chieu_so_du
doi_chieu_so_du-returns held wallet_id db = lock_suspects-Returns held (selected wallet_id db) db
