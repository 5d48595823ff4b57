-- ===== src/Wallet/Service/Effect.antt =====
-- What one call of `ghi_so_cai` (modules/wallet/service.py) does to its wallet.
use ttcs_t926_k8s4_n1_csms.Base.{
  ◌≡◌, refl, ap, ◌∙◌, ◌⊎◌, inl, inr, true, false, not, ◌&&◌, none, some,
}
use ttcs_t926_k8s4_n1_csms.Base.Int.{◌+ℤ◌}
use ttcs_t926_k8s4_n1_csms.Base.Text.{strip}
use ttcs_t926_k8s4_n1_csms.Wallet.Tables.{Wallet, Entry, Db, find_wallet, find_entry}
use ttcs_t926_k8s4_n1_csms.Wallet.Tx.{ok}
use ttcs_t926_k8s4_n1_csms.Wallet.Service.{
  Posting, in_range, wrong_sign, is_locked, is_adjustment, ghi_so_cai,
}
use ttcs_t926_k8s4_n1_csms.Wallet.Service.Arrival.{Arrives}
use ttcs_t926_k8s4_n1_csms.Wallet.Service.Outcome.{
  Matches, Inserts, inserted_into, new_row, stripped, ghi_so_cai-ok,
}
use ttcs_t926_k8s4_n1_csms.Wallet.Service.Replay.{find_entry-new}
use ttcs_t926_k8s4_n1_csms.Wallet.Service.Invariant.{find_wallet-set_balance_self, with_balance}

-- Either the key was taken and the balance is untouched, or it was free, and the balance has moved
-- by the amount to what the row records, within a BIGINT.
abbrev pub Moved : Posting → Wallet → Db → Entry → Wallet → Type 0
Moved p w db e w' =
    (w' ≡ w)
    ⊎ ((find_entry p.entry_type (strip p.reference_id) db.ledger ≡ none)
        × (w' ≡ record w { balance_vnd = w.balance_vnd +ℤ p.amount_vnd })
        × (e.balance_after_vnd ≡ w.balance_vnd +ℤ p.amount_vnd)
        × (in_range (w.balance_vnd +ℤ p.amount_vnd) ≡ true))

pub record Effect (p : Posting) (db : Db) (e : Entry) (db' : Db) : Type 0 where
  pub before : Wallet
  pub after : Wallet
  pub was : find_wallet p.wallet_id db.wallets ≡ some before
  pub is : find_wallet p.wallet_id db'.wallets ≡ some after
  pub row : find_entry p.entry_type (strip p.reference_id) db'.ledger ≡ some e
  pub mine : e.wallet_id ≡ p.wallet_id
  pub amount : e.amount_vnd ≡ p.amount_vnd
  pub sign : wrong_sign p.entry_type p.amount_vnd ≡ false
  pub open_wallet : is_locked before.status && not (is_adjustment p.entry_type) ≡ false
  pub moved : Moved p before db e after

-- The part of `Effect` that depends on how the row came to be.
record Change (p : Posting) (w : Wallet) (db : Db) (e : Entry) (db' : Db) : Type 0 where
  after : Wallet
  is : find_wallet p.wallet_id db'.wallets ≡ some after
  matches : Matches (stripped p) e db'
  moved : Moved p w db e after

module _ (arrive : Db → Db) (p : Posting) (env : Arrives p.wallet_id arrive) where
  change :
      (w : Wallet) (e : Entry) (db db' : Db)
      → find_wallet p.wallet_id db.wallets ≡ some w
      → (Matches (stripped p) e db × (db' ≡ db))
        ⊎ ((find_entry p.entry_type (strip p.reference_id) db.ledger ≡ none)
            × (Inserts (stripped p) w (arrive db) e db'
                ⊎ (Matches (stripped p) e (arrive db) × (db' ≡ arrive db))))
      → Change p w db e db'
  change w e db db' row (inl (m, same)) =
      rw same (record { after = w; is = row; matches = m; moved = inl refl })
  change w e db db' row (inr (free, inr (m, same))) =
      rw same (record { after = w; is = env.row db ∙ row; matches = m; moved = inl refl })
  change w e db db' row (inr (free, inl (fits, fresh, e_is, db'_is))) =
      let b = w.balance_vnd +ℤ p.amount_vnd in
      let c : Change p w db (new_row (stripped p) b (arrive db).next_ledger_id)
          (inserted_into (stripped p) b (arrive db)) =
        record {
          after = record w { balance_vnd = b };
          is =
              find_wallet-set_balance_self p.wallet_id b (arrive db).wallets
              ∙ ap (with_balance b) (env.row db ∙ row);
          matches = (
            find_entry-new (stripped p) b (arrive db).next_ledger_id (arrive db).ledger,
            refl,
            refl,
          );
          moved = inr (free, refl, refl, fits);
        } in
      rw (e_is, db'_is) c

-- A call that returns has a row under its key with its wallet and amount, of the sign of its type;
-- the wallet was not locked, unless for an adjustment; and either the key was free, and the balance
-- moved by the amount to what the row records, or the balance is as it was.
pub ghi_so_cai-Effect :
    (arrive : Db → Db) (p : Posting) (e : Entry) (db db' : Db)
    → Arrives p.wallet_id arrive
    → ghi_so_cai arrive p db ≡ ok (e, db')
    → Effect p db e db'
ghi_so_cai-Effect arrive p e db db' env run =
    let (s, sign) = ghi_so_cai-ok arrive p e db db' run in
    let c = change arrive p env s.wallet e db db' s.found s.how in
    record {
      before = s.wallet;
      after = c.after;
      was = s.found;
      is = c.is;
      row = c.matches.0;
      mine = c.matches.1;
      amount = c.matches.2;
      sign = sign;
      open_wallet = s.unlocked;
      moved = c.moved;
    }
