-- ===== src/Wallet/Reconcile/Swept.antt =====
-- `run_reconciliation` (modules/wallet/reconciliation.py) returns, and it judges every wallet.
use ttcs_t926_k8s4_n1_csms.Base.{
  ℕ, zero, suc, ◌<◌, ◌≡◌, refl, sym, ap, ◌∙◌, ltb, ◌⊎◌, inl, inr, Bool, true, false, not, ◌&&◌,
  ◌||◌, Option, none, some, List, [], ◌∷◌, map, length, length-keep, arith,
}
use ttcs_t926_k8s4_n1_csms.Base.Sorted.{has}
use ttcs_t926_k8s4_n1_csms.Base.Pages.{
  limit, last_id, is_after, ids_after, Rising, ids_after-Rising, has-ids_after, limit-has,
  has-last_id, limit-rest, left_after, left_after-less,
}
use ttcs_t926_k8s4_n1_csms.Wallet.Tables.{Wallet, Db, find_wallet}
use ttcs_t926_k8s4_n1_csms.Wallet.Service.{is_locked}
use ttcs_t926_k8s4_n1_csms.Wallet.Reconcile.Alike.{suspect, locked_if}
use ttcs_t926_k8s4_n1_csms.Wallet.Reconcile.Turn.{Alike-refl}
use ttcs_t926_k8s4_n1_csms.Wallet.Reconcile.{wallet_ids}
use ttcs_t926_k8s4_n1_csms.Wallet.Reconcile.Run.{
  Run, no_run, run_page, run_pages, run_reconciliation,
}
use ttcs_t926_k8s4_n1_csms.Wallet.Reconcile.Locks.{find_wallet-listed}
use ttcs_t926_k8s4_n1_csms.Wallet.Reconcile.Seen.{Calm, Seen, Seen-Calm, run_page-Seen}

both : (a b : Bool) → (a && b) ≡ true → (a ≡ true) × (b ≡ true)
both true b h = (refl, h)
both false b h = cc

neither : (a b : Bool) → (a || b) ≡ false → (a ≡ false) × (b ≡ false)
neither true b h = cc
neither false b h = (refl, h)

passed :
    (i : ℕ) (l : List ℕ) (j : ℕ)
    → (has i (j ∷ l) ≡ true) ⊎ (last_id j l < i)
    → has i (j ∷ l) ≡ false
    → ltb (last_id j l) i ≡ true
passed i l j (inl p) m = cc
passed i l j (inr p) m = ground arith

wallet_ids-length : (ws : List Wallet) → length (map (λ (x : Wallet). x.id) ws) ≡ length ws
wallet_ids-length [] = refl
wallet_ids-length (x ∷ ws) = ap suc (wallet_ids-length ws)

module _ (paged : Option ℕ → Db → Db) (others : ℕ → Db → Db) (held broken : ℕ → Bool)
    (calm_paged : (c : Option ℕ) → Calm (paged c)) (calm : (i : ℕ) → Calm (others i)) (i : ℕ)
    (w : Wallet) (db0 : Db) (stored : find_wallet i db0.wallets ≡ some w) where
  abbrev Met : Bool → Run → Db → Type 0
  Met v r db = Seen paged others held broken calm_paged calm i w db0 v r db

  -- The run returns, and the wallet's turn is over.
  abbrev Ends : Option (Run × Db) → Type 0
  Ends o = (r : Run) × (db : Db) × (o ≡ some (r, db)) × Met true r db

  here : has i (wallet_ids db0) ≡ true
  here = find_wallet-listed i w db0.wallets stored

  -- The identifiers of a page and those after it, as a query after the cursor gives them.
  abbrev Query : Option ℕ → List ℕ → Type 0
  Query c l = (x : ℕ) → has x l ≡ (is_after c x && has x (wallet_ids db0))

  last-after :
      (c : Option ℕ) (j : ℕ) (l : List ℕ)
      → Query c (j ∷ l)
      → left_after (some (last_id j (limit 499 l))) (wallet_ids db0) < left_after c (wallet_ids db0)
  last-after c j l q =
      let last = last_id j (limit 499 l) in
      let there : (is_after c last && has last (wallet_ids db0)) ≡ true =
        sym (q last) ∙ limit-has 499 j last l (has-last_id j (limit 499 l)) in
      let (above, listed) = both (is_after c last) (has last (wallet_ids db0)) there in
      left_after-less c last (wallet_ids db0) above listed

  page-rest :
      (c : Option ℕ) (v : Bool) (j : ℕ) (l : List ℕ)
      → Query c (j ∷ l)
      → Rising (j ∷ l)
      → (v ≡ false → is_after c i ≡ true)
      → (v || has i (j ∷ limit 499 l)) ≡ false
      → is_after (some (last_id j (limit 499 l))) i ≡ true
  page-rest c v j l q up k h =
      let (fresh, missed) = neither v (has i (j ∷ limit 499 l)) h in
      let there : has i (j ∷ l) ≡ true = q i ∙ rw (k fresh, here) refl in
      passed i (limit 499 l) j (limit-rest 499 j i l up there) missed

  run_pages-Ends :
      (fuel : ℕ) (c : Option ℕ) (v : Bool) (r : Run) (db : Db)
      → left_after c (wallet_ids db0) < fuel
      → (v ≡ false → is_after c i ≡ true)
      → Met v r db
      → Ends (run_pages paged others held broken fuel c r db)
  unfolding run_pages
  run_pages-Ends zero c v r db f k s = absurd (omega arith)
  run_pages-Ends (suc fuel) c v r db f k s =
      next v (ids_after c (wallet_ids db1)) s1 k (ids_after-Rising c (wallet_ids db1))
        (λ x. has-ids_after x c (wallet_ids db1) ∙ ap (λ l. is_after c x && has x l) s1.ids)
        (run_pages-Ends fuel)
    where
      db1 : Db
      db1 = paged c db

      s1 : Met v r db1
      s1 =
          Seen-Calm paged others held broken calm_paged calm i w db0 (paged c) v r db (calm_paged c)
            s

      next :
          (v : Bool) (ids : List ℕ)
          → Met v r db1
          → (v ≡ false → is_after c i ≡ true)
          → Rising ids
          → Query c ids
          → ((c : Option ℕ) (v : Bool) (r : Run) (db : Db)
              → left_after c (wallet_ids db0) < fuel
              → (v ≡ false → is_after c i ≡ true)
              → Met v r db
              → Ends (run_pages paged others held broken fuel c r db))
          → Ends (elim (limit 500 ids) [
            | [] ↦ some (r, db1)
            | i ∷ l ↦
                let (r', db') = run_page paged others held broken (i ∷ l) r db1 in
                run_pages paged others held broken fuel (some (last_id i l)) r' db'
          ])
      next true [] s k up q rest = (r, db1, refl, s)
      next false [] s k up q rest = cc (q i, k refl, here)
      next v (j ∷ l) s k up q rest =
          let page = j ∷ limit 499 l in
          let less = last-after c j l q in
          rest (some (last_id j (limit 499 l))) (v || has i page) _ _ (omega arith)
            (page-rest c v j l q up k)
            (run_page-Seen paged others held broken calm_paged calm i w db0 page v r db1 s)

  -- Where the other transactions leave wallets, ledger, invoices and sessions alone,
  -- run_reconciliation with one turn more than there are wallets returns.
  -- Each stored wallet that had an issue is then locked, unless its row was held or its transaction
  -- failed, and is otherwise as it was; the log warns of exactly the wallets that this locked and names
  -- the failed ones, the answer counts the warnings, and the ledger is as it was.
  pub run_reconciliation-Swept :
      let hit = not (held i) && not (broken i) && suspect w db0 in
      (r : Run) × (db : Db) × (run_reconciliation paged others held broken
          (suc (length db0.wallets))
          db0
        ≡ some (r, db))
      × (find_wallet i db.wallets ≡ some (locked_if hit w))
      × (has i r.warned ≡ (hit && not (is_locked w.status)))
      × (has i r.failed ≡ broken i)
      × (r.changed ≡ length r.warned)
      × (db.ledger ≡ db0.ledger)
  unfolding run_reconciliation
  run_reconciliation-Swept =
      let start : Met false no_run db0 = record {
        judged = record { alike = Alike-refl refl; wallet = stored; given = refl };
        failed = refl;
        counted = refl;
        ids = refl;
      } in
      let few = length-keep (is_after none) (wallet_ids db0) in
      let count = wallet_ids-length db0.wallets in
      let (r, db, e, s) =
        run_pages-Ends (suc (length db0.wallets)) none false no_run db0 (omega arith) (λ h. refl)
          start in
      (r, db, e, s.judged.wallet, s.judged.given, s.failed, s.counted, s.judged.alike.ledger)
