-- ===== src/Wallet/Reconcile/Seen.antt =====
-- What a page of `run_reconciliation` (modules/wallet/reconciliation.py) makes of one wallet.
use ttcs_t926_k8s4_n1_csms.Base.{
  some, ℕ, ◌+◌, ◌≡◌, refl, sym, ap, subst, ◌∙◌, Bool, true, false, not, ◌&&◌, ◌||◌, Option, List,
  [], ◌∷◌, ◌++◌, map, length, ◌==◌, if◌then◌else◌, arith,
}
use ttcs_t926_k8s4_n1_csms.Base.Sorted.{has, has-append}
use ttcs_t926_k8s4_n1_csms.Wallet.Tables.{Wallet, Db, find_wallet}
use ttcs_t926_k8s4_n1_csms.Wallet.Tx.{Result}
use ttcs_t926_k8s4_n1_csms.Wallet.Reconcile.{owner_id, doi_chieu_so_du, wallet_ids}
use ttcs_t926_k8s4_n1_csms.Wallet.Reconcile.Alike.{Alike, suspect, locked_if, suspect-Alike}
use ttcs_t926_k8s4_n1_csms.Wallet.Reconcile.Turn.{Judged, Alike-compose}
use ttcs_t926_k8s4_n1_csms.Wallet.Reconcile.Locks.{compose_turns, doi_chieu_so_du-Judged}
use ttcs_t926_k8s4_n1_csms.Wallet.Reconcile.Written.{doi_chieu_so_du-returns}
use ttcs_t926_k8s4_n1_csms.Wallet.Reconcile.Run.{Run, log_failed, count_locked, run_one, run_page}

-- Other transactions that leave alone what an inspection reads and what it locks.
pub record Calm (f : Db → Db) : Type 0 where
  pub wallets : (db : Db) → (f db).wallets ≡ db.wallets
  pub ledger : (db : Db) → (f db).ledger ≡ db.ledger
  pub invoices : (db : Db) → (f db).invoices ≡ db.invoices
  pub sessions : (db : Db) → (f db).sessions ≡ db.sessions

Calm-Alike : (f : Db → Db) → Calm f → (db : Db) → Alike db (f db)
Calm-Alike f calm db = record {
  ledger = calm.ledger db;
  invoices = calm.invoices db;
  sessions = calm.sessions db;
  owners = λ d. ap (λ (x : List Wallet). owner_id x d) (calm.wallets db);
}

length-append : (a b : List ℕ) → length (a ++ b) ≡ length a + length b
length-append [] b = omega arith
length-append (x ∷ a) b = ground (arith, length-append a b)

-- The tests of a turn: whether the wallet is the one of the turn (`e`), had its turn (`v`), is held
-- (`h`), broken (`b`) and suspect (`s`).
same_hit :
    (e v h b s : Bool)
    → (e ≡ true → b ≡ true)
    → (v && not h && not b && s) ≡ ((v || e) && not h && not b && s)
same_hit e v h true s f = ground arith
same_hit true v h false s f = cc (f refl)
same_hit false v h false s f = ground arith

new_hit :
    (e v h b s : Bool)
    → (e ≡ true → b ≡ false)
    → ((v && not h && not b && s) || ((e && not h) && s)) ≡ ((v || e) && not h && not b && s)
new_hit e v h false s f = ground arith
new_hit true v h true s f = cc (f refl)
new_hit false v h true s f = ground arith

same_failed : (e v b : Bool) → (e ≡ true → b ≡ true) → (v && b || (e || false)) ≡ ((v || e) && b)
same_failed e v true f = ground arith
same_failed true v false f = cc (f refl)
same_failed false v false f = ground arith

not_failed : (e v b : Bool) → (e ≡ true → b ≡ false) → (v && b) ≡ ((v || e) && b)
not_failed e v false f = ground arith
not_failed true v true f = cc (f refl)
not_failed false v true f = ground arith

or_false : (v : Bool) → v ≡ (v || false)
or_false v = ground arith

or_assoc : (a b c : Bool) → ((a || b) || c) ≡ (a || (b || c))
or_assoc a b c = ground arith

module _ (paged : Option ℕ → Db → Db) (others : ℕ → Db → Db) (held broken : ℕ → Bool)
    (calm_paged : (c : Option ℕ) → Calm (paged c)) (calm : (i : ℕ) → Calm (others i)) (i : ℕ)
    (w : Wallet) (db0 : Db) where
  -- What a run has made of wallet `i`; `v` says whether its turn is over.
  pub record Seen (v : Bool) (r : Run) (db : Db) : Type 0 where
    pub judged : Judged i (v && not (held i) && not (broken i) && suspect w db0) w r.warned db0 db
    pub failed : has i r.failed ≡ (v && broken i)
    pub counted : r.changed ≡ length r.warned
    pub ids : wallet_ids db ≡ wallet_ids db0

  pub Seen-Calm :
      (f : Db → Db) (v : Bool) (r : Run) (db : Db) → Calm f → Seen v r db → Seen v r (f db)
  Seen-Calm f v r db quiet s = record {
    judged = record {
      alike = Alike-compose s.judged.alike (Calm-Alike f quiet db);
      wallet = ap (find_wallet i) (quiet.wallets db) ∙ s.judged.wallet;
      given = s.judged.given;
    };
    failed = s.failed;
    counted = s.counted;
    ids = ap (map (λ (x : Wallet). x.id)) (quiet.wallets db) ∙ s.ids;
  }

  turn_failed :
      (j : ℕ) (v : Bool) (r : Run) (db : Db)
      → broken j ≡ true
      → Seen v r db
      → Seen (v || i == j) (log_failed j r) db
  turn_failed j v r db b s =
      let own : (i == j) ≡ true → broken i ≡ true =
        λ e. let ij : i ≡ j = ground arith in ap broken ij ∙ b in
      record {
        judged =
            subst (λ x. Judged i x w r.warned db0 db)
              (same_hit (i == j) v (held i) (broken i) (suspect w db0) own) s.judged;
        failed =
            has-append i r.failed (j ∷ [])
            ∙ ap (λ x. x || (i == j || false)) s.failed
            ∙ same_failed (i == j) v (broken i) own;
        counted = s.counted;
        ids = s.ids;
      }

  turn_done :
      (j : ℕ) (v : Bool) (r : Run) (db : Db)
      → broken j ≡ false
      → Seen v r db
      → let (r', db') = count_locked j db r (doi_chieu_so_du held (some j) db) in
        Seen (v || i == j) r' db'
  turn_done j v r db b s =
      let (out, db', e, same) = doi_chieu_so_du-returns held (some j) db in
      let hit = v && not (held i) && not (broken i) && suspect w db0 in
      let own : (i == j) ≡ true → broken i ≡ false =
        λ e. let ij : i ≡ j = ground arith in ap broken ij ∙ b in
      let q =
        doi_chieu_so_du-Judged held (some j) i (locked_if hit w) out db db' s.judged.wallet e in
      let p =
        compose_turns i w r.warned out hit
          ((i == j && not (held i)) && suspect (locked_if hit w) db) db0 db db' s.judged q in
      let met =
        ap (λ x. hit || ((i == j && not (held i)) && x)) (suspect-Alike w hit db0 db s.judged.alike)
        ∙ new_hit (i == j) v (held i) (broken i) (suspect w db0) own in
      subst
        (λ (m : Result (List ℕ × Db)).
          let (r', db') = count_locked j db r m in Seen (v || i == j) r' db')
        (sym e)
        record {
          judged = subst (λ x. Judged i x w (r.warned ++ out) db0 db') met p;
          failed = s.failed ∙ not_failed (i == j) v (broken i) own;
          counted = ap (λ x. x + length out) s.counted ∙ sym (length-append r.warned out);
          ids = same ∙ s.ids;
        }

  run_one-Seen :
      (j : ℕ) (v : Bool) (r : Run) (db : Db)
      → Seen v r db
      → let (r', db') = run_one paged others held broken j r db in Seen (v || i == j) r' db'
  unfolding run_one
  run_one-Seen j v r db s =
      let s1 = Seen-Calm (others j) v r db (calm j) s in
      go (broken j) (λ e. turn_failed j v r (others j db) e s1)
        (λ e. turn_done j v r (others j db) e s1) refl
    where
      ran : Run × Db
      ran = count_locked j (others j db) r (doi_chieu_so_du held (some j) (others j db))

      go :
          (b : Bool)
          → (b ≡ true → Seen (v || i == j) (log_failed j r) (others j db))
          → (b ≡ false → Seen (v || i == j) ran.0 ran.1)
          → broken j ≡ b
          → let (r', db') = if b then (log_failed j r, others j db) else ran in
            Seen (v || i == j) r' db'
      go true p q e = p refl
      go false p q e = q refl

  pub run_page-Seen :
      (l : List ℕ) (v : Bool) (r : Run) (db : Db)
      → Seen v r db
      → let (r', db') = run_page paged others held broken l r db in Seen (v || has i l) r' db'
  unfolding run_page
  run_page-Seen [] v r db s = subst (λ x. Seen x r db) (or_false v) s
  run_page-Seen (j ∷ l) v r db s =
      let turn = run_one-Seen j v r db s in
      let (r', db') = run_one paged others held broken j r db in
      let (r'', db'') = run_page paged others held broken l r' db' in
      subst (λ x. Seen x r'' db'') (or_assoc v (i == j) (has i l))
        (run_page-Seen l (v || i == j) r' db' turn)
