-- ===== src/Wallet/Service/Outcome.antt =====
-- What `ghi_so_cai` (modules/wallet/service.py) has done when it returns.
use ttcs_t926_k8s4_n1_csms.Base.{
  ℕ, suc, ◌≡◌, refl, ◌⊎◌, inl, inr, true, false, not, ◌&&◌, ◌||◌, Option, none, some, ◌∷◌, arith,
}
use ttcs_t926_k8s4_n1_csms.Base.Int.{ℤ, ◌+ℤ◌}
use ttcs_t926_k8s4_n1_csms.Base.Text.{strip}
use ttcs_t926_k8s4_n1_csms.Wallet.Tables.{
  Wallet, Entry, WalletAudit, Db, find_wallet, set_balance, find_entry,
}
use ttcs_t926_k8s4_n1_csms.Wallet.Tx.{ok, Tx, ◌>>=◌}
use ttcs_t926_k8s4_n1_csms.Wallet.Tx.Invert.{bind-ok, or_raise-ok, raise_if-ok}
use ttcs_t926_k8s4_n1_csms.Wallet.Service.{
  Posting, in_range, integer_vnd, lock_wallet, matching_entry, checked, evidence, stale,
  insert_entry, win_or_match, insert_or_match, adjustment_evidence, require_admin, is_unknown,
  wrong_sign, bad_reference, post, matches_if_found, return_or_post, settle, ghi_so_cai,
  breaks_constraint, is_locked, is_adjustment,
}

-- The row that `insert_entry` adds.
abbrev pub new_row : Posting → ℤ → ℕ → Entry
new_row p after i = record {
  id = i;
  wallet_id = p.wallet_id;
  entry_type = p.entry_type;
  amount_vnd = p.amount_vnd;
  balance_after_vnd = after;
  reference_type = p.reference_type;
  reference_id = p.reference_id;
  actor_id = p.actor_id;
}

-- The tables after the insert.
abbrev pub inserted_into : Posting → ℤ → Db → Db
inserted_into p after db = record db {
  wallets = set_balance p.wallet_id after db.wallets;
  ledger = new_row p after db.next_ledger_id ∷ db.ledger;
  next_ledger_id = suc db.next_ledger_id;
}

-- A row under the key of `p`, with its wallet and amount.
abbrev pub Matches : Posting → Entry → Db → Type 0
Matches p e db =
    (find_entry p.entry_type p.reference_id db.ledger ≡ some e)
    × (e.wallet_id ≡ p.wallet_id)
    × (e.amount_vnd ≡ p.amount_vnd)

-- The insert of the new row with the balance that it leaves.
abbrev pub Inserts : Posting → Wallet → Db → Entry → Db → Type 0
Inserts p w db e db' =
    let after = w.balance_vnd +ℤ p.amount_vnd in
    (in_range after ≡ true)
    × (find_entry p.entry_type p.reference_id db.ledger ≡ none)
    × (e ≡ new_row p after db.next_ledger_id)
    × (db' ≡ inserted_into p after db)

matching_entry-ok :
    (p : Posting) (row e : Entry) (db db' : Db)
    → matching_entry row p.wallet_id p.amount_vnd db ≡ ok (e, db')
    → (e ≡ row) × (db' ≡ db) × (row.wallet_id ≡ p.wallet_id) × (row.amount_vnd ≡ p.amount_vnd)
unfolding matching_entry
matching_entry-ok p row e db db' h = ground arith

win_or_match-ok :
    (o : Option Entry) (p : Posting) (w : Wallet) (e : Entry) (db db' : Db)
    → find_entry p.entry_type p.reference_id db.ledger ≡ o
    → in_range (w.balance_vnd +ℤ p.amount_vnd) ≡ true
    → win_or_match o p (w.balance_vnd +ℤ p.amount_vnd) db ≡ ok (e, db')
    → Inserts p w db e db' ⊎ (Matches p e db × (db' ≡ db))
unfolding win_or_match insert_entry
win_or_match-ok none p w e db db' f r h = inl (r, f, ground arith, ground arith)
win_or_match-ok (some row) p w e db db' f r h =
    let (same, kept, mine, amount) = matching_entry-ok p row e db db' h in inr ((cc, cc, cc), kept)

pub integer_vnd-ok :
    {B : Type 0} (a : ℤ) (f : ℤ → Tx B) (db : Db) {r : B × Db}
    → (integer_vnd a >>= f) db ≡ ok r
    → (in_range a ≡ true) × (f a db ≡ ok r)
unfolding integer_vnd
integer_vnd-ok a f db h = ground arith

insert_or_match-ok :
    (p : Posting) (w : Wallet) (e : Entry) (db db' : Db)
    → in_range (w.balance_vnd +ℤ p.amount_vnd) ≡ true
    → insert_or_match p (w.balance_vnd +ℤ p.amount_vnd) db ≡ ok (e, db')
    → Inserts p w db e db' ⊎ (Matches p e db × (db' ≡ db))
unfolding insert_or_match
insert_or_match-ok p w e db db' r h =
    win_or_match-ok (find_entry p.entry_type p.reference_id db.ledger) p w e db db' refl r
      (raise_if-ok (breaks_constraint p) _ _ db h).1

matches_if_found-ok :
    (o : Option Entry) (p : Posting) (u : Unit {0}) (db db' : Db)
    → matches_if_found o p db ≡ ok (u, db')
    → (db' ≡ db)
      × ((e : Entry) → o ≡ some e → (e.wallet_id ≡ p.wallet_id) × (e.amount_vnd ≡ p.amount_vnd))
matches_if_found-ok none p u db db' h = (cc, λ e q. cc)
matches_if_found-ok (some row) p u db db' h =
    let (e, db1, m, k) = bind-ok (matching_entry row p.wallet_id p.amount_vnd) _ db h in
    let (same, kept, mine, amount) = matching_entry-ok p row e db db1 m in (cc, λ e' q. (cc, cc))

pub evidence-keeps :
    (p : Posting) (a : Option WalletAudit) (db db' : Db) → evidence p db ≡ ok (a, db') → db' ≡ db
unfolding evidence adjustment_evidence require_admin
evidence-keeps p a db db' h = ground arith

module _ (arrive : Db → Db) where
  pub post-ok :
      (p : Posting) (w : Wallet) (audit : Option WalletAudit) (e : Entry) (db db' : Db)
      → post arrive p w audit db ≡ ok (e, db')
      → Inserts p w (arrive db) e db' ⊎ (Matches p e (arrive db) × (db' ≡ arrive db))
  unfolding post
  post-ok p w audit e db db' h =
      let (fits, h1) = integer_vnd-ok (w.balance_vnd +ℤ p.amount_vnd) _ db h in
      let (fresh, h2) =
        raise_if-ok (stale audit w.balance_vnd (w.balance_vnd +ℤ p.amount_vnd)) _ _ db h1 in
      insert_or_match-ok p w e (arrive db) db' fits h2

  -- What `settle` has done: the wallet is there and not locked, unless for an adjustment, and the
  -- row was there, or arrived, or was inserted.
  pub record Settled (p : Posting) (db : Db) (e : Entry) (db' : Db) : Type 0 where
    pub wallet : Wallet
    pub found : find_wallet p.wallet_id db.wallets ≡ some wallet
    pub unlocked : is_locked wallet.status && not (is_adjustment p.entry_type) ≡ false
    pub audit : Option WalletAudit
    pub evident : evidence p db ≡ ok (audit, db)
    pub how :
        (Matches p e db × (db' ≡ db))
        ⊎ ((find_entry p.entry_type p.reference_id db.ledger ≡ none)
            × (Inserts p wallet (arrive db) e db' ⊎ (Matches p e (arrive db) × (db' ≡ arrive db))))

  Return : Option Entry → Posting → Wallet → Db → Entry → Db → Type 0
  Return o p w db e db' =
      (Matches p e db × (db' ≡ db))
      ⊎ ((find_entry p.entry_type p.reference_id db.ledger ≡ none)
          × (Inserts p w (arrive db) e db' ⊎ (Matches p e (arrive db) × (db' ≡ arrive db))))

  return_or_post-ok :
      (o : Option Entry) (p : Posting) (w : Wallet) (a : Option WalletAudit) (e : Entry)
      (db db' : Db)
      → find_entry p.entry_type p.reference_id db.ledger ≡ o
      → ((e : Entry) → o ≡ some e → (e.wallet_id ≡ p.wallet_id) × (e.amount_vnd ≡ p.amount_vnd))
      → return_or_post arrive o p w a db ≡ ok (e, db')
      → Return o p w db e db'
  unfolding Return
  return_or_post-ok none p w a e db db' f m h = inr (f, post-ok p w a e db db' h)
  return_or_post-ok (some row) p w a e db db' f m h =
      let (mine, amount) = m row refl in let same : row ≡ e = cc in inl ((cc, cc, cc), cc)

  pub settle-ok :
      (p : Posting) (e : Entry) (db db' : Db)
      → settle arrive p db ≡ ok (e, db')
      → Settled p db e db'
  unfolding settle lock_wallet Return
  settle-ok p e db db' h =
      let o = find_entry p.entry_type p.reference_id db.ledger in
      let (w, found, h1) = or_raise-ok (find_wallet p.wallet_id db.wallets) _ _ db h in
      let (u, db1, matched, h2) = bind-ok (matches_if_found o p) _ db h1 in
      let (kept, same) = matches_if_found-ok o p u db db1 matched in
      let (unlocked, h3) =
        raise_if-ok (is_locked w.status && not (is_adjustment p.entry_type)) _ _ db1 h2 in
      let (audit, db2, evident, h4) = bind-ok (evidence p) _ db1 h3 in
      let kept2 = evidence-keeps p audit db1 db2 evident in
      record {
        wallet = w;
        found = found;
        unlocked = unlocked;
        audit = audit;
        evident = cc (evident, kept, kept2);
        how = return_or_post-ok o p w audit e db db' refl same (cc (h4, kept, kept2));
      }

-- The posting that the checks let through.
abbrev pub stripped : Posting → Posting
stripped p = record p {
  reference_type = strip p.reference_type;
  reference_id = strip p.reference_id;
}

pub checked-ok :
    (p p' : Posting) (db db' : Db)
    → checked p db ≡ ok (p', db')
    → (db' ≡ db)
      × (p' ≡ stripped p)
      × (in_range p.amount_vnd ≡ true)
      × (wrong_sign p.entry_type p.amount_vnd ≡ false)
unfolding checked
checked-ok p p' db db' h =
    let (fits, h1) = integer_vnd-ok p.amount_vnd _ db h in
    let (known, h2) = raise_if-ok (is_unknown p.entry_type) _ _ db h1 in
    let (sign, h3) = raise_if-ok (wrong_sign p.entry_type p.amount_vnd) _ _ db h2 in
    let (reference, h4) =
      raise_if-ok
        (bad_reference (strip p.reference_type) 50 || bad_reference (strip p.reference_id) 128) _ _
        db h3 in
    (cc, cc, fits, sign)

module _ (arrive : Db → Db) where
  pub ghi_so_cai-ok :
      (p : Posting) (e : Entry) (db db' : Db)
      → ghi_so_cai arrive p db ≡ ok (e, db')
      → Settled arrive (stripped p) db e db' × (wrong_sign p.entry_type p.amount_vnd ≡ false)
  unfolding ghi_so_cai
  ghi_so_cai-ok p e db db' h =
      let (p', db1, c, k) = bind-ok (checked p) _ db h in
      let (kept, same, fits, sign) = checked-ok p p' db db1 c in
      (settle-ok arrive (stripped p) e db db' (cc (k, kept, same)), sign)
