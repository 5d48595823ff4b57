-- ===== src/Wallet/Journal.antt =====
-- src/platform/audit/service.py: `ghi_nhat_ky` appends a line to the audit log. The data of a line
-- repeats what other rows hold and is left out, and with it the tests on its keys, which the callers'
-- literal dictionaries pass.
use ttcs_t926_k8s4_n1_csms.Base.{
  ℕ, Bool, false, ◌&&◌, ◌||◌, Option, List, [], ◌∷◌, length, is_empty, ltb,
}
use ttcs_t926_k8s4_n1_csms.Base.Text.{Text, text_eq, strip}
use ttcs_t926_k8s4_n1_csms.Wallet.Tables.{Log, Db}
use ttcs_t926_k8s4_n1_csms.Wallet.Tx.{ok, Tx, ◌>>=◌, ◌>>◌, raise_if, modify, value_error}

-- `_identifier(value, maximum)`
unfoldable pub identifier : Text → ℕ → Tx Text
identifier value maximum =
    raise_if (is_empty (strip value) || ltb maximum (length (strip value))) value_error
    >> (λ db. ok (strip value, db))

-- `_identifier(value)`
unfoldable pub any_identifier : Text → Tx Text
any_identifier value = raise_if (is_empty (strip value)) value_error >> (λ db. ok (strip value, db))

abbrev pub add_log : Option ℕ → Text → Text → Text → Db → Db
add_log actor action object_type object_id db = record db {
  logs =
      record { actor_id = actor; action = action; object_type = object_type; object_id = object_id }
      ∷ db.logs;
}

unfoldable pub ghi_nhat_ky : Option ℕ → Text → Text → Text → Tx (Unit {0})
ghi_nhat_ky actor action object_type object_id = do
  action' ← identifier action 100
  object_type' ← identifier object_type 100
  object_id' ← any_identifier object_id
  modify (add_log actor action' object_type' object_id')

abbrev pub any_text : Text → List Text → Bool
any_text t [] = false
any_text t (s ∷ ss) = text_eq s t || any_text t ss

-- Whether some line has one of the actions on the object.
abbrev pub logged : List Text → Text → Text → List Log → Bool
logged actions object_type object_id [] = false
logged actions object_type object_id (l ∷ ls) =
    any_text l.action actions && text_eq l.object_type object_type && text_eq l.object_id object_id
    || logged actions object_type object_id ls
