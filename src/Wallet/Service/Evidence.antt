-- ===== src/Wallet/Service/Evidence.antt =====
-- The evidence of an adjustment (modules/wallet/service.py, the block under `"adjustment"`).
use ttcs_t926_k8s4_n1_csms.Base.{
  ℕ, ◌≡◌, refl, ap, subst, ◌∙◌, ◌⊎◌, inl, inr, Bool, true, false, not, Option, none, some, arith,
}
use ttcs_t926_k8s4_n1_csms.Base.Text.{codes, text_eq}
use ttcs_t926_k8s4_n1_csms.Wallet.Uuid.{canonical_uuid}
use ttcs_t926_k8s4_n1_csms.Wallet.Tables.{WalletAudit, Db, find_audit}
use ttcs_t926_k8s4_n1_csms.Wallet.Tx.{Result, ok, pure, ◌>>=◌}
use ttcs_t926_k8s4_n1_csms.Wallet.Tx.Invert.{
  bind-ok, or_raise-ok, raise_if-ok, or_raise-run, raise_if-run,
}
use ttcs_t926_k8s4_n1_csms.Wallet.Service.{
  Posting, active_admin, find_actor, require_admin, adjustment_evidence, evidence, audit_matches,
  is_adjustment,
}

-- What `adjustment_evidence` has checked when it returns the audit row `a`.
pub record Proven (p : Posting) (a : WalletAudit) (db : Db) : Type 0 where
  pub admin : active_admin (find_actor p.actor_id db.users) ≡ true
  pub id : ℕ
  pub spelled : canonical_uuid p.reference_id ≡ some id
  pub kind : text_eq p.reference_type (codes "audit") ≡ true
  pub row : find_audit id db.audits ≡ some a
  pub fits : audit_matches a p ≡ true

not-false : (b : Bool) → not b ≡ false → b ≡ true
not-false true h = refl
not-false false h = cc

pub adjustment_evidence-ok :
    (p : Posting) (a : WalletAudit) (db db' : Db)
    → adjustment_evidence p db ≡ ok (a, db')
    → Proven p a db
unfolding adjustment_evidence require_admin
adjustment_evidence-ok p a db db' h =
    let (admin, h1) = raise_if-ok (not (active_admin (find_actor p.actor_id db.users))) _ _ db h in
    let (id, spelled, h2) = or_raise-ok (canonical_uuid p.reference_id) _ _ db h1 in
    let (kind, h3) = raise_if-ok (not (text_eq p.reference_type (codes "audit"))) _ _ db h2 in
    let (row, found, h4) = or_raise-ok (find_audit id db.audits) _ _ db h3 in
    let (fits, h5) = raise_if-ok (not (audit_matches row p)) _ _ db h4 in
    let same : row ≡ a = cc in
    record {
      admin = not-false (active_admin (find_actor p.actor_id db.users)) admin;
      id = id;
      spelled = spelled;
      kind = not-false (text_eq p.reference_type (codes "audit")) kind;
      row = cc;
      fits = not-false (audit_matches a p) (subst (λ x. not (audit_matches x p) ≡ false) same fits);
    }

pub adjustment_evidence-run :
    (p : Posting) (a : WalletAudit) (db : Db)
    → Proven p a db
    → adjustment_evidence p db ≡ ok (a, db)
unfolding adjustment_evidence require_admin
adjustment_evidence-run p a db q =
    raise_if-run (not (active_admin (find_actor p.actor_id db.users))) _ _ db (ap not q.admin)
    ∙ or_raise-run (canonical_uuid p.reference_id) _ _ db q.spelled
    ∙ raise_if-run (not (text_eq p.reference_type (codes "audit"))) _ _ db (ap not q.kind)
    ∙ or_raise-run (find_audit q.id db.audits) _ _ db q.row
    ∙ raise_if-run (not (audit_matches a p)) _ _ db (ap not q.fits)

pub evidence-ok :
    (p : Posting) (o : Option WalletAudit) (db db' : Db)
    → evidence p db ≡ ok (o, db')
    → ((is_adjustment p.entry_type ≡ false) × (o ≡ none))
      ⊎ ((is_adjustment p.entry_type ≡ true) × (a : WalletAudit) × (o ≡ some a) × Proven p a db)
unfolding evidence
evidence-ok p o db db' h = go (is_adjustment p.entry_type) refl h
  where
    go :
        (b : Bool)
        → is_adjustment p.entry_type ≡ b
        → let r : Result (Option WalletAudit × Db) = elim b [
          | true ↦ (do a ← adjustment_evidence p; pure (some a)) db
          | false ↦ ok (none, db)
        ] in
          r ≡ ok (o, db')
          → ((is_adjustment p.entry_type ≡ false) × (o ≡ none))
            ⊎ ((is_adjustment p.entry_type ≡ true)
                × (a : WalletAudit) × (o ≡ some a)
                × Proven p a db)
    go false e k = inl (e, cc)
    go true e k =
        let (a, db1, found, k1) = bind-ok (adjustment_evidence p) _ db k in
        inr (e, a, cc, adjustment_evidence-ok p a db db1 found)

-- The evidence is found again where the users are the same and no audit row is gone.
pub evidence-again :
    (p : Posting) (o : Option WalletAudit) (db db1 db' : Db)
    → evidence p db ≡ ok (o, db1)
    → (active_admin (find_actor p.actor_id db.users) ≡ true
        → active_admin (find_actor p.actor_id db'.users) ≡ true)
    → ((j : ℕ) (a : WalletAudit)
        → find_audit j db.audits ≡ some a
        → find_audit j db'.audits ≡ some a)
    → evidence p db' ≡ ok (o, db')
unfolding evidence
evidence-again p o db db1 db' h admin audits = go (evidence-ok p o db db1 h)
  where
    go :
        (((is_adjustment p.entry_type ≡ false) × (o ≡ none))
          ⊎ ((is_adjustment p.entry_type ≡ true)
              × (a : WalletAudit) × (o ≡ some a)
              × Proven p a db))
        → evidence p db' ≡ ok (o, db')
    go (inl (e, none_found)) = ground arith
    go (inr (e, a, found, q)) =
        let again = adjustment_evidence-run p a db' (record {
          admin = admin q.admin;
          id = q.id;
          spelled = q.spelled;
          kind = q.kind;
          row = audits q.id a q.row;
          fits = q.fits;
        }) in
        ground (arith, again)
