-- ===== src/Wallet/Reconcile/Locks.antt =====
-- What a reconciliation (`doi_chieu_so_du`, modules/wallet/reconciliation.py) does to the wallets.
use ttcs_t926_k8s4_n1_csms.Base.{
  ℕ, ◌≡◌, refl, sym, ap, subst, ◌∙◌, Bool, true, false, not, ◌&&◌, ◌||◌, Option, none, some, List,
  [], ◌∷◌, ◌++◌, ◌==◌, keep, map, if◌then◌else◌, arith,
}
use ttcs_t926_k8s4_n1_csms.Base.Sorted.{has, has-append}
use ttcs_t926_k8s4_n1_csms.Base.Pages.{ids_after, has-ids_after}
use ttcs_t926_k8s4_n1_csms.Base.Int.{eqb_ℤ}
use ttcs_t926_k8s4_n1_csms.Wallet.Tables.{Wallet, Db, find_wallet, ledger_total}
use ttcs_t926_k8s4_n1_csms.Wallet.Tx.{ok}
use ttcs_t926_k8s4_n1_csms.Wallet.Tx.Invert.{bind-ok}
use ttcs_t926_k8s4_n1_csms.Wallet.Service.{in_range, is_locked}
use ttcs_t926_k8s4_n1_csms.Wallet.Reconcile.Alike.{suspect, locked_if, suspect-Alike}
use ttcs_t926_k8s4_n1_csms.Wallet.Reconcile.Turn.{
  Judged, Alike-compose, skipped_turn, inspect-ok, find_wallet-id,
}
use ttcs_t926_k8s4_n1_csms.Wallet.Service.Arrival.{Consistent}
use ttcs_t926_k8s4_n1_csms.Wallet.Reconcile.{
  balance_mismatch, ledger_total_overflow, has_issue, inspect, lock_suspects, doi_chieu_so_du,
  wallet_ids, selected,
}

-- Whether the pass over the listed wallets inspects wallet `i`.
abbrev pub inspected : (ℕ → Bool) → List ℕ → ℕ → Bool
inspected skipped ids i = has i ids && not (skipped i)

twice : (b c : Bool) (w : Wallet) → locked_if c (locked_if b w) ≡ locked_if (b || c) w
twice true true w = refl
twice true false w = refl
twice false c w = refl

given_twice :
    (b c x y : Bool) (w : Wallet)
    → x ≡ (b && not (is_locked w.status))
    → y ≡ (c && not (is_locked (locked_if b w).status))
    → (x || y) ≡ ((b || c) && not (is_locked w.status))
given_twice true true x y w p q = ground arith
given_twice true false x y w p q = ground arith
given_twice false c x y w p q = ground arith

pub compose_turns :
    (i : ℕ) (w : Wallet) (here rest : List ℕ) (b c : Bool) (db db1 db' : Db)
    → Judged i b w here db db1
    → Judged i c (locked_if b w) rest db1 db'
    → Judged i (b || c) w (here ++ rest) db db'
compose_turns i w here rest b c db db1 db' p q = record {
  alike = Alike-compose p.alike q.alike;
  wallet = q.wallet ∙ ap some (twice b c w);
  given = has-append i here rest ∙ given_twice b c (has i here) (has i rest) w p.given q.given;
}

absorbed : (a l s : Bool) → ((a && s) || (l && a && s)) ≡ (a && s)
absorbed a l s = ground arith

merged :
    (i j : ℕ) (skipped : ℕ → Bool) (l s e : Bool)
    → (i == j) ≡ e
    → ((e && not (skipped j) && s) || (l && not (skipped i) && s))
      ≡ ((e || l) && not (skipped i) && s)
merged i j skipped l s false q = refl
merged i j skipped l s true q =
    let ij : i ≡ j = ground arith in
    ap (λ x. (not (skipped x) && s) || (l && not (skipped i) && s)) (sym ij)
    ∙ absorbed (not (skipped i)) l s

pub lock_suspects-Judged :
    (skipped : ℕ → Bool) (ids : List ℕ) (i : ℕ) (w : Wallet) (out : List ℕ) (db db' : Db)
    → find_wallet i db.wallets ≡ some w
    → lock_suspects skipped ids db ≡ ok (out, db')
    → Judged i (inspected skipped ids i && suspect w db) w out db db'
unfolding lock_suspects
lock_suspects-Judged skipped [] i w out db db' f h =
    let (o, d) : (out ≡ []) × (db' ≡ db) = (cc, cc) in
    skipped_turn i i w out db db' f false refl o d
lock_suspects-Judged skipped (j ∷ ids) i w out db db' f h =
    let (here, db1, turn, h1) =
      bind-ok (inspect (if skipped j then none else find_wallet j db.wallets)) _ db h in
    let (rest, db2, pass, h2) = bind-ok (lock_suspects skipped ids) _ db1 h1 in
    let p = inspect-ok i j w here db db1 f (skipped j) turn in
    let b = i == j && not (skipped j) && suspect w db in
    let q = lock_suspects-Judged skipped ids i (locked_if b w) rest db1 db2 p.wallet pass in
    let r =
      compose_turns i w here rest b (inspected skipped ids i && suspect (locked_if b w) db1) db db1
        db2 p q in
    let (o, d) : (here ++ rest ≡ out) × (db2 ≡ db') = (cc, cc) in
    let e =
      ap (λ x. b || (inspected skipped ids i && x)) (suspect-Alike w b db db1 p.alike)
      ∙ merged i j skipped (has i ids) (suspect w db) (i == j) refl in
    subst (λ x. Judged i (inspected skipped (j ∷ ids) i && suspect w db) w out db x) d
      (subst (λ x. Judged i (inspected skipped (j ∷ ids) i && suspect w db) w x db db2) o
        (subst (λ x. Judged i x w (here ++ rest) db db2) e r))

-- Whether a call of doi_chieu_so_du is about wallet `i`: about all, or about that one.
abbrev pub chosen : Option ℕ → ℕ → Bool
chosen none i = true
chosen (some j) i = i == j

pub find_wallet-listed :
    (i : ℕ) (w : Wallet) (ws : List Wallet)
    → find_wallet i ws ≡ some w
    → has i (map (λ (x : Wallet). x.id) ws) ≡ true
find_wallet-listed i w [] h = cc
find_wallet-listed i w (v ∷ vs) h = ground (arith, find_wallet-listed i w vs)

has-keep : (i j : ℕ) (l : List ℕ) → has i (keep (λ x. x == j) l) ≡ (i == j && has i l)
has-keep i j [] = ground arith
has-keep i j (x ∷ xs) = ground (arith, has-keep i j xs)

and_true_right : (a b : Bool) → b ≡ true → (a && b) ≡ a
and_true_right a b h = ground arith

-- The query of the ids lists a stored wallet where the call is about it.
has-selected :
    (wallet_id : Option ℕ) (i : ℕ) (w : Wallet) (db : Db)
    → find_wallet i db.wallets ≡ some w
    → has i (selected wallet_id db) ≡ chosen wallet_id i
has-selected none i w db f =
    has-ids_after i none (wallet_ids db) ∙ find_wallet-listed i w db.wallets f
has-selected (some j) i w db f =
    has-keep i j (ids_after none (wallet_ids db))
    ∙ and_true_right (i == j) _
        (has-ids_after i none (wallet_ids db) ∙ find_wallet-listed i w db.wallets f)

pub doi_chieu_so_du-Judged :
    (skipped : ℕ → Bool) (wallet_id : Option ℕ) (i : ℕ) (w : Wallet) (out : List ℕ) (db db' : Db)
    → find_wallet i db.wallets ≡ some w
    → doi_chieu_so_du skipped wallet_id db ≡ ok (out, db')
    → Judged i ((chosen wallet_id i && not (skipped i)) && suspect w db) w out db db'
unfolding doi_chieu_so_du
doi_chieu_so_du-Judged skipped wallet_id i w out db db' f h =
    subst (λ x. Judged i ((x && not (skipped i)) && suspect w db) w out db db')
      (has-selected wallet_id i w db f)
      (lock_suspects-Judged skipped (selected wallet_id db) i w out db db' f h)

-- A reconciliation that returns locks every stored wallet that it is about, that no one else held and
-- that has an issue, and leaves all other wallets, the balances and the ledger alone; the ids that it
-- gives out are those of the wallets that it newly locked.
pub doi_chieu_so_du_locks :
    (skipped : ℕ → Bool) (wallet_id : Option ℕ) (i : ℕ) (w : Wallet) (out : List ℕ) (db db' : Db)
    → find_wallet i db.wallets ≡ some w
    → doi_chieu_so_du skipped wallet_id db ≡ ok (out, db')
    → let hit = (chosen wallet_id i && not (skipped i)) && suspect w db in
      (find_wallet i db'.wallets ≡ some (locked_if hit w))
      × (has i out ≡ (hit && not (is_locked w.status)))
      × (db'.ledger ≡ db.ledger)
doi_chieu_so_du_locks skipped wallet_id i w out db db' f h =
    let j = doi_chieu_so_du-Judged skipped wallet_id i w out db db' f h in
    (j.wallet, j.given, j.alike.ledger)

-- In consistent tables the inspection of a wallet finds its balance and the ledger's sum right.
pub has_issue-Consistent :
    (i : ℕ) (w : Wallet) (db : Db)
    → Consistent db
    → find_wallet i db.wallets ≡ some w
    → (has_issue w db balance_mismatch ≡ false) × (has_issue w db ledger_total_overflow ≡ false)
unfolding has_issue
has_issue-Consistent i w db c f =
    let total : w.balance_vnd ≡ ledger_total w.id db.ledger =
      c.cached i w f ∙ ap (λ x. ledger_total x db.ledger) (sym (find_wallet-id i w db.wallets f)) in
    (
      ap (λ x. not (eqb_ℤ x w.balance_vnd)) (sym total) ∙ ground arith,
      ap (λ x. not (in_range x)) (sym total) ∙ ap not (c.ranged i w f),
    )
