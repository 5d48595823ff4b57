-- ===== src/Wallet/Reconcile/Alike.antt =====
-- The inspection of a wallet (modules/wallet/reconciliation.py) does not read the locks.
use ttcs_t926_k8s4_n1_csms.Base.{
  ℕ, ◌≡◌, refl, ap, Bool, true, false, not, ◌&&◌, some, List, [], ◌∷◌, ◌==◌, keep, is_empty, arith,
}
use ttcs_t926_k8s4_n1_csms.Wallet.Tables.{Wallet, WalletStatus, locked, Db}
use ttcs_t926_k8s4_n1_csms.Wallet.Service.{option_eq}
use ttcs_t926_k8s4_n1_csms.Wallet.Reconcile.{
  Issue, balance_mismatch, ledger_total_overflow, invoice_driver_mismatch, invoice_debit_count,
  invoice_debit_wallet, invoice_debit_type, invoice_debit_reference, invoice_debit_amount, owner_id,
  any_of, debits, concerns, has_issue, all_issues, wallet_issues,
}

-- The tables agree in all that an inspection reads.
pub record Alike (db db' : Db) : Type 0 where
  pub ledger : db'.ledger ≡ db.ledger
  pub invoices : db'.invoices ≡ db.invoices
  pub sessions : db'.sessions ≡ db.sessions
  pub owners : (d : ℕ) → owner_id db'.wallets d ≡ owner_id db.wallets d

any_of-same {ℓ} :
    {A : Type ℓ} {p q : A → Bool} (xs : List A) → ((x : A) → p x ≡ q x) → any_of p xs ≡ any_of q xs
any_of-same [] h = refl
any_of-same (x ∷ xs) h = cc (h x, any_of-same xs h)

has_issue-Alike :
    (w : Wallet) (s : WalletStatus) (db db' : Db) (x : Issue)
    → Alike db db'
    → has_issue (record w { status = s }) db' x ≡ has_issue w db x
unfolding has_issue
has_issue-Alike w s db db' balance_mismatch a = rw a.ledger refl
has_issue-Alike w s db db' ledger_total_overflow a = rw a.ledger refl
has_issue-Alike w s db db' invoice_driver_mismatch a = rw (a.ledger, a.invoices, a.sessions) refl
has_issue-Alike w s db db' invoice_debit_count a = rw (a.ledger, a.invoices, a.sessions) refl
has_issue-Alike w s db db' invoice_debit_wallet a =
    rw (a.ledger, a.invoices, a.sessions)
      (any_of-same db.invoices λ v. any_of-same db.sessions λ c.
        ap (λ x. concerns w db.ledger v c && x)
          (any_of-same (debits v c db.ledger)
            λ e. ap (λ x. not (option_eq ◌==◌ (some e.wallet_id) x)) (a.owners v.driver_id)))
has_issue-Alike w s db db' invoice_debit_type a = rw (a.ledger, a.invoices, a.sessions) refl
has_issue-Alike w s db db' invoice_debit_reference a = rw (a.ledger, a.invoices, a.sessions) refl
has_issue-Alike w s db db' invoice_debit_amount a = rw (a.ledger, a.invoices, a.sessions) refl

-- Whether the inspection of a wallet finds an issue.
abbrev pub suspect : Wallet → Db → Bool
suspect w db = not (is_empty (wallet_issues w db).1)

abbrev pub locked_if : Bool → Wallet → Wallet
locked_if true w = record w { status = locked }
locked_if false w = w

keep-same :
    (p q : Issue → Bool) (xs : List Issue) → ((x : Issue) → p x ≡ q x) → keep p xs ≡ keep q xs
keep-same p q [] h = refl
keep-same p q (x ∷ xs) h = ground (arith, h x, keep-same p q xs h)

pub suspect-Alike :
    (w : Wallet) (b : Bool) (db db' : Db)
    → Alike db db'
    → suspect (locked_if b w) db' ≡ suspect w db
unfolding wallet_issues
suspect-Alike w true db db' a =
    ap (λ (x : List Issue). not (is_empty x))
      (keep-same (has_issue (record w { status = locked }) db') (has_issue w db) all_issues
        (λ x. has_issue-Alike w locked db db' x a))
suspect-Alike w false db db' a =
    ap (λ (x : List Issue). not (is_empty x))
      (keep-same (has_issue w db') (has_issue w db) all_issues
        (λ x. has_issue-Alike w w.status db db' x a))
