-- ===== src/Wallet/Service/Invariant.antt =====
-- `ghi_so_cai` (modules/wallet/service.py) keeps the wallet tables consistent.
use ttcs_t926_k8s4_n1_csms.Base.{
  ℕ, ◌≡◌, refl, sym, ap, subst, ◌∙◌, ◌⊎◌, inl, inr, true, false, Option, none, some, List, [], ◌∷◌,
  arith, ◌==◌, if◌then◌else◌, Bool-cases, ==_iff,
}
use ttcs_t926_k8s4_n1_csms.Base.Int.{ℤ, ◌+ℤ◌, +ℤ_comm}
use ttcs_t926_k8s4_n1_csms.Wallet.Tables.{
  Wallet, Entry, Db, find_wallet, find_driver_wallet, set_balance, find_entry, ledger_total,
}
use ttcs_t926_k8s4_n1_csms.Wallet.Tx.{ok}
use ttcs_t926_k8s4_n1_csms.Wallet.Service.{Posting, in_range, wrong_sign, ghi_so_cai}
use ttcs_t926_k8s4_n1_csms.Wallet.Service.Arrival.{Consistent, Arrives}
use ttcs_t926_k8s4_n1_csms.Wallet.Service.Outcome.{
  Matches, Inserts, Settled, stripped, ghi_so_cai-ok,
}

abbrev pub with_balance : ℤ → Option Wallet → Option Wallet
with_balance b none = none
with_balance b (some w) = some (record w { balance_vnd = b })

pub find_wallet-set_balance_self :
    (i : ℕ) (b : ℤ) (ws : List Wallet)
    → find_wallet i (set_balance i b ws) ≡ with_balance b (find_wallet i ws)
find_wallet-set_balance_self i b [] = refl
find_wallet-set_balance_self i b (w ∷ ws) = ground (arith, find_wallet-set_balance_self i b ws)

pub find_wallet-set_balance_ne :
    (i j : ℕ) (b : ℤ) (ws : List Wallet)
    → (i == j) ≡ false
    → find_wallet j (set_balance i b ws) ≡ find_wallet j ws
find_wallet-set_balance_ne i j b [] h = refl
find_wallet-set_balance_ne i j b (w ∷ ws) h = ground (arith, find_wallet-set_balance_ne i j b ws h)

pub balance-set_balance :
    (i : ℕ) (b : ℤ) (w v : Wallet) (ws : List Wallet)
    → find_wallet i ws ≡ some w
    → find_wallet i (set_balance i b ws) ≡ some v
    → v ≡ record w { balance_vnd = b }
balance-set_balance i b w v ws row h =
    let e : with_balance b (some w) ≡ some v =
      ap (with_balance b) (sym row) ∙ sym (find_wallet-set_balance_self i b ws) ∙ h in
    cc

abbrev pub updated : ℕ → ℤ → Wallet → Wallet
updated i b w = if w.id == i then record w { balance_vnd = b } else w

abbrev pub updated? : ℕ → ℤ → Option Wallet → Option Wallet
updated? i b none = none
updated? i b (some w) = some (updated i b w)

pub find_driver_wallet-set_balance :
    (d i : ℕ) (b : ℤ) (ws : List Wallet)
    → find_driver_wallet d (set_balance i b ws) ≡ updated? i b (find_driver_wallet d ws)
find_driver_wallet-set_balance d i b [] = refl
find_driver_wallet-set_balance d i b (w ∷ ws) =
    ground (arith, find_driver_wallet-set_balance d i b ws)

find_wallet-set_balance :
    (j i : ℕ) (b : ℤ) (ws : List Wallet)
    → find_wallet j (set_balance i b ws) ≡ updated? i b (find_wallet j ws)
find_wallet-set_balance j i b [] = refl
find_wallet-set_balance j i b (w ∷ ws) = ground (arith, find_wallet-set_balance j i b ws)

updated-id : (i : ℕ) (b : ℤ) (w : Wallet) → (updated i b w).id ≡ w.id
updated-id i b w = ground arith

owned-set_balance :
    (d i : ℕ) (b : ℤ) (v : Wallet) (ws : List Wallet)
    → ((w : Wallet) → find_driver_wallet d ws ≡ some w → find_wallet w.id ws ≡ some w)
    → find_driver_wallet d (set_balance i b ws) ≡ some v
    → find_wallet v.id (set_balance i b ws) ≡ some v
owned-set_balance d i b v ws owned h =
    go (find_driver_wallet d ws) refl (sym (find_driver_wallet-set_balance d i b ws) ∙ h)
  where
    go :
        (o : Option Wallet)
        → find_driver_wallet d ws ≡ o
        → updated? i b o ≡ some v
        → find_wallet v.id (set_balance i b ws) ≡ some v
    go none f k = cc
    go (some w) f k =
        let same : updated i b w ≡ v = cc in
        let id : v.id ≡ w.id = ap (λ (u : Wallet). u.id) (sym same) ∙ updated-id i b w in
        ap (λ j. find_wallet j (set_balance i b ws)) id
        ∙ find_wallet-set_balance w.id i b ws
        ∙ ap (updated? i b) (owned w f)
        ∙ k

module _ (p : Posting) (w : Wallet) (db : Db) (consistent : Consistent db) where
  abbrev AfterInsert : ℕ → Wallet → Type 0
  AfterInsert i v =
      find_wallet i (set_balance p.wallet_id (w.balance_vnd +ℤ p.amount_vnd) db.wallets) ≡ some v

  insert_cached :
      find_wallet p.wallet_id db.wallets ≡ some w
      → (i : ℕ) (v : Wallet) → AfterInsert i v
      → v.balance_vnd ≡ (
          if p.wallet_id == i
          then p.amount_vnd +ℤ ledger_total i db.ledger
          else ledger_total i db.ledger)
  insert_cached row i v h = elim (Bool-cases (p.wallet_id == i)) [
    | inl same ↦
        let here : p.wallet_id ≡ i = (==_iff p.wallet_id i).0 same in
        let v_is =
          balance-set_balance i (w.balance_vnd +ℤ p.amount_vnd) w v db.wallets
            (subst (λ k. find_wallet k db.wallets ≡ some w) here row)
            (subst
              (λ k.
                find_wallet i (set_balance k (w.balance_vnd +ℤ p.amount_vnd) db.wallets) ≡ some v)
              here h) in
        let before = consistent.cached p.wallet_id w row in
        rw same (ap (λ (u : Wallet). u.balance_vnd) v_is ∙ total_then i here before)
    | inr other ↦ rw other (
        consistent.cached i v (
          sym (
            find_wallet-set_balance_ne p.wallet_id i (w.balance_vnd +ℤ p.amount_vnd) db.wallets
              other)
          ∙ h))
  ]
    where
      total_then :
          (i : ℕ)
          → p.wallet_id ≡ i
          → w.balance_vnd ≡ ledger_total p.wallet_id db.ledger
          → w.balance_vnd +ℤ p.amount_vnd ≡ p.amount_vnd +ℤ ledger_total i db.ledger
      total_then i here before = rw (before, here) (+ℤ_comm (ledger_total i db.ledger) p.amount_vnd)

  insert_ranged :
      find_wallet p.wallet_id db.wallets ≡ some w
      → in_range (w.balance_vnd +ℤ p.amount_vnd) ≡ true
      → (i : ℕ) (v : Wallet) → AfterInsert i v
      → in_range v.balance_vnd ≡ true
  insert_ranged row fits i v h = elim (Bool-cases (p.wallet_id == i)) [
    | inl same ↦
        let here : p.wallet_id ≡ i = (==_iff p.wallet_id i).0 same in
        let v_is =
          balance-set_balance i (w.balance_vnd +ℤ p.amount_vnd) w v db.wallets
            (subst (λ k. find_wallet k db.wallets ≡ some w) here row)
            (subst
              (λ k.
                find_wallet i (set_balance k (w.balance_vnd +ℤ p.amount_vnd) db.wallets) ≡ some v)
              here h) in
        subst (λ (u : Wallet). in_range u.balance_vnd ≡ true) (sym v_is) fits
    | inr other ↦ consistent.ranged i v (
        sym (
          find_wallet-set_balance_ne p.wallet_id i (w.balance_vnd +ℤ p.amount_vnd) db.wallets other)
        ∙ h)
  ]

  pub insert-Consistent :
      (e : Entry) (db' : Db)
      → find_wallet p.wallet_id db.wallets ≡ some w
      → wrong_sign p.entry_type p.amount_vnd ≡ false
      → Inserts p w db e db'
      → Consistent db'
  insert-Consistent e db' row sign (fits, fresh, _, after) = subst Consistent (sym after) (record {
    cached = insert_cached row;
    ranged = insert_ranged row fits;
    lawful = (fresh, sign, consistent.lawful);
    owned = λ d v h.
        owned-set_balance d p.wallet_id (w.balance_vnd +ℤ p.amount_vnd) v db.wallets
          (consistent.owned d) h;
  })

module _ (arrive : Db → Db) (p : Posting) (env : Arrives p.wallet_id arrive) where
  how-Consistent :
      (w : Wallet) (e : Entry) (db db' : Db)
      → Consistent db
      → find_wallet p.wallet_id db.wallets ≡ some w
      → wrong_sign p.entry_type p.amount_vnd ≡ false
      → (Inserts (stripped p) w (arrive db) e db'
          ⊎ (Matches (stripped p) e (arrive db) × (db' ≡ arrive db)))
      → Consistent db'
  how-Consistent w e db db' c row sign (inl inserts) =
      insert-Consistent (stripped p) w (arrive db) (env.keeps db c) e db' (env.row db ∙ row) sign
        inserts
  how-Consistent w e db db' c row sign (inr (_, same)) =
      subst Consistent (sym same) (env.keeps db c)

  -- Where `ghi_so_cai` returns from consistent tables, the tables are consistent again, whatever
  -- other transactions committed meanwhile: each cached balance is the sum of its ledger rows, and
  -- no key is used twice.
  pub ghi_so_cai-Consistent :
      (e : Entry) (db db' : Db)
      → Consistent db
      → ghi_so_cai arrive p db ≡ ok (e, db')
      → Consistent db'
  ghi_so_cai-Consistent e db db' c run =
      let (s, sign) = ghi_so_cai-ok arrive p e db db' run in settled s sign s.how
    where
      settled :
          (s : Settled arrive (stripped p) db e db')
          → wrong_sign p.entry_type p.amount_vnd ≡ false
          → (Matches (stripped p) e db × (db' ≡ db))
            ⊎ ((find_entry p.entry_type (stripped p).reference_id db.ledger ≡ none)
                × (Inserts (stripped p) s.wallet (arrive db) e db'
                    ⊎ (Matches (stripped p) e (arrive db) × (db' ≡ arrive db))))
          → Consistent db'
      settled s sign (inl (_, same)) = subst Consistent (sym same) c
      settled s sign (inr (_, how)) = how-Consistent s.wallet e db db' c s.found sign how
