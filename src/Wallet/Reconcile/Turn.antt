-- ===== src/Wallet/Reconcile/Turn.antt =====
-- One turn of the loop of `doi_chieu_so_du` (modules/wallet/reconciliation.py), as each wallet sees it.
use ttcs_t926_k8s4_n1_csms.Base.{
  ℕ, ◌≡◌, refl, sym, ap, subst, ◌∙◌, Bool, true, false, not, ◌&&◌, ◌||◌, Option, none, some, List,
  [], ◌∷◌, ◌==◌, is_empty, if◌then◌else◌, arith,
}
use ttcs_t926_k8s4_n1_csms.Base.Sorted.{has}
use ttcs_t926_k8s4_n1_csms.Base.Text.{Text, codes}
use ttcs_t926_k8s4_n1_csms.Wallet.Uuid.{uuid_text}
use ttcs_t926_k8s4_n1_csms.Wallet.Tables.{Wallet, WalletStatus, locked, Db, find_wallet, set_status}
use ttcs_t926_k8s4_n1_csms.Wallet.Tx.{ok}
use ttcs_t926_k8s4_n1_csms.Wallet.Tx.Invert.{bind-ok}
use ttcs_t926_k8s4_n1_csms.Wallet.Service.{is_locked}
use ttcs_t926_k8s4_n1_csms.Wallet.Journal.{ghi_nhat_ky, identifier, any_identifier}
use ttcs_t926_k8s4_n1_csms.Wallet.Reconcile.Alike.{Alike, suspect, locked_if}
use ttcs_t926_k8s4_n1_csms.Wallet.Reconcile.{owner_id, wallet_issues, lock_if, inspect}

find_driver_wallet-set_status :
    (d i : ℕ) (s : WalletStatus) (ws : List Wallet) → owner_id (set_status i s ws) d ≡ owner_id ws d
find_driver_wallet-set_status d i s [] = refl
find_driver_wallet-set_status d i s (w ∷ ws) =
    ground (arith, find_driver_wallet-set_status d i s ws)

find_wallet-set_status :
    (i j : ℕ) (w : Wallet) (ws : List Wallet)
    → find_wallet i ws ≡ some w
    → find_wallet i (set_status j locked ws) ≡ some (locked_if (i == j) w)
find_wallet-set_status i j w [] h = cc
find_wallet-set_status i j w (v ∷ vs) h = ground (arith, find_wallet-set_status i j w vs)

ghi_nhat_ky-Alike :
    (actor : Option ℕ) (a o i : Text) (u : Unit {0}) (db db' : Db)
    → ghi_nhat_ky actor a o i db ≡ ok (u, db')
    → Alike db db' × (db'.wallets ≡ db.wallets)
unfolding ghi_nhat_ky identifier any_identifier
ghi_nhat_ky-Alike actor a o i u db db' h =
    let ws : db'.wallets ≡ db.wallets = ground arith in
    (
      record {
        ledger = ground arith;
        invoices = ground arith;
        sessions = ground arith;
        owners = λ d. ap (λ (x : List Wallet). owner_id x d) ws;
      },
      ws,
    )

pub Alike-compose : {a b c : Db} → Alike a b → Alike b c → Alike a c
Alike-compose p q = record {
  ledger = q.ledger ∙ p.ledger;
  invoices = q.invoices ∙ p.invoices;
  sessions = q.sessions ∙ p.sessions;
  owners = λ d. q.owners d ∙ p.owners d;
}

pub Alike-refl : {a b : Db} → b ≡ a → Alike a b
Alike-refl e = record {
  ledger = ap (λ (x : Db). x.ledger) e;
  invoices = ap (λ (x : Db). x.invoices) e;
  sessions = ap (λ (x : Db). x.sessions) e;
  owners = λ d. ap (λ (x : Db). owner_id x.wallets d) e;
}

-- One wallet's turn: what it locks.
record Turn (b : Bool) (v : Wallet) (out : List ℕ) (db db' : Db) : Type 0 where
  alike : Alike db db'
  out_is : out ≡ (if b then v.id ∷ [] else [])
  wallets : db'.wallets ≡ (if b then set_status v.id locked db.wallets else db.wallets)

lock_if-ok :
    (b : Bool) (v : Wallet) (out : List ℕ) (db db' : Db)
    → lock_if b v db ≡ ok (out, db')
    → Turn b v out db db'
unfolding lock_if
lock_if-ok false v out db db' h = record { alike = Alike-refl cc; out_is = cc; wallets = cc }
lock_if-ok true v out db db' h =
    let now : Db = record db { wallets = set_status v.id locked db.wallets } in
    let (u, db1, run, k) =
      bind-ok
        (ghi_nhat_ky none (codes "wallet.reconciliation_locked") (codes "wallet") (uuid_text v.id))
        _ now h in
    let (a, ws) =
      ghi_nhat_ky-Alike none (codes "wallet.reconciliation_locked") (codes "wallet")
        (uuid_text v.id) u now db1 run in
    let same : db1 ≡ db' = cc in
    let here : Alike db now = record {
      ledger = refl;
      invoices = refl;
      sessions = refl;
      owners = λ d. find_driver_wallet-set_status d v.id locked db.wallets;
    } in
    record {
      alike = subst (Alike db) same (Alike-compose here a);
      out_is = cc;
      wallets = ap (λ (x : Db). x.wallets) (sym same) ∙ ws;
    }

-- What becomes of wallet `i` and whether its id is given out.
pub record Judged (i : ℕ) (b : Bool) (w : Wallet) (out : List ℕ) (db db' : Db) : Type 0 where
  pub alike : Alike db db'
  pub wallet : find_wallet i db'.wallets ≡ some (locked_if b w)
  pub given : has i out ≡ (b && not (is_locked w.status))

pub find_wallet-id : (i : ℕ) (w : Wallet) (ws : List Wallet) → find_wallet i ws ≡ some w → w.id ≡ i
find_wallet-id i w [] h = cc
find_wallet-id i w (v ∷ vs) h = ground (arith, find_wallet-id i w vs)

locked_if-locked : (w : Wallet) → is_locked w.status ≡ true → record w { status = locked } ≡ w
locked_if-locked w h =
    let e : w.status ≡ locked = ground arith in
    ap (λ (x : WalletStatus). record w { status = x }) (sym e)

and_true : (a b : Bool) → (a && b) ≡ (a && true && b)
and_true a b = ground arith

not-or : (a b : Bool) → not (a || b) ≡ (not a && not b)
not-or a b = ground arith

-- The turn of wallet `v` as wallet `i` sees it: `e` says whether they are the same, `s` whether it is
-- suspect.
module _ (i : ℕ) (v w : Wallet) (ws : List Wallet) (f : find_wallet i ws ≡ some w) where
  seen :
      (b e s : Bool)
      → (i == v.id) ≡ e
      → (e ≡ true → b ≡ (s && not (is_locked w.status)))
      → find_wallet i (if b then set_status v.id locked ws else ws) ≡ some (locked_if (e && s) w)
  seen true true true q d = find_wallet-set_status i v.id w ws f ∙ ap (λ x. some (locked_if x w)) q
  seen true true false q d = cc (d refl)
  seen true false s q d = find_wallet-set_status i v.id w ws f ∙ ap (λ x. some (locked_if x w)) q
  seen false false s q d = f
  seen false true false q d = f
  seen false true true q d = f ∙ ap some (sym (locked_if-locked w (let k = d refl in ground arith)))

  given_out :
      (b e s : Bool)
      → (i == v.id) ≡ e
      → (e ≡ true → b ≡ (s && not (is_locked w.status)))
      → has i (if b then v.id ∷ [] else []) ≡ (e && s && not (is_locked w.status))
  given_out true true s q d = rw q (d refl)
  given_out false true s q d = d refl
  given_out true false s q d = rw q refl
  given_out false false s q d = refl

module _ (i j : ℕ) (w : Wallet) (out : List ℕ) (db db' : Db)
    (f : find_wallet i db.wallets ≡ some w) where
  pub skipped_turn : (b : Bool) → b ≡ false → out ≡ [] → db' ≡ db → Judged i b w out db db'
  skipped_turn true e o d = cc
  skipped_turn false e o d = record {
    alike = Alike-refl d;
    wallet = ap (λ (x : Db). find_wallet i x.wallets) d ∙ f;
    given = ap (has i) o;
  }

  own_turn :
      (v : Wallet)
      → find_wallet j db.wallets ≡ some v
      → lock_if (not (is_empty (wallet_issues v db).1 || is_locked v.status)) v db ≡ ok (out, db')
      → Judged i (i == j && suspect w db) w out db db'
  own_turn v g h =
      let b = not (is_empty (wallet_issues v db).1 || is_locked v.status) in
      let t = lock_if-ok b v out db db' h in
      let id = find_wallet-id j v db.wallets g in
      let q : (i == v.id) ≡ (i == j) = ap (λ x. i == x) id in
      let d : (i == j) ≡ true → b ≡ (suspect w db && not (is_locked w.status)) = λ e.
        let ij : i ≡ j = ground arith in
        let wv : v ≡ w = cc (ap (λ x. find_wallet x db.wallets) ij, f, g) in
        not-or (is_empty (wallet_issues v db).1) (is_locked v.status)
        ∙ ap (λ (x : Wallet). suspect x db && not (is_locked x.status)) wv in
      record {
        alike = t.alike;
        wallet =
            ap (find_wallet i) t.wallets ∙ seen i v w db.wallets f b (i == j) (suspect w db) q d;
        given = ap (has i) t.out_is ∙ given_out i v w db.wallets f b (i == j) (suspect w db) q d;
      }

  absent :
      find_wallet j db.wallets ≡ none → (e : Bool) → (i == j) ≡ e → (s : Bool) → (e && s) ≡ false
  absent g false q s = refl
  absent g true q s =
      let ij : i ≡ j = ground arith in cc (ap (λ x. find_wallet x db.wallets) ij, f, g)

  pub inspect-ok :
      (s : Bool)
      → inspect (if s then none else find_wallet j db.wallets) db ≡ ok (out, db')
      → Judged i (i == j && not s && suspect w db) w out db db'
  unfolding inspect
  inspect-ok true h =
      let (o, d) : (out ≡ []) × (db' ≡ db) = (cc, cc) in
      skipped_turn (i == j && false && suspect w db) (ground arith) o d
  inspect-ok false h =
      subst (λ x. Judged i x w out db db') (and_true (i == j) (suspect w db))
        (go (find_wallet j db.wallets) refl h)
    where
      go :
          (o : Option Wallet)
          → find_wallet j db.wallets ≡ o
          → inspect o db ≡ ok (out, db')
          → Judged i (i == j && suspect w db) w out db db'
      go (some v) g k = own_turn v g k
      go none g k =
          let (o, d) : (out ≡ []) × (db' ≡ db) = (cc, cc) in
          skipped_turn (i == j && suspect w db) (absent g (i == j) refl (suspect w db)) o d
