-- ===== src/Pricing/Versions/History.antt =====
-- The life of the tariffs of modules/pricing: versions are created, edited before they begin, and marked
-- by invoices, at later and later times.
use ttcs_t926_k8s4_n1_csms.Base.{
  ℕ, ◌≤◌, ◌≡◌, ◌≢◌, refl, sym, ap, subst, ◌∙◌, none, some, ◌∷◌, All, arith,
}
use ttcs_t926_k8s4_n1_csms.Pricing.Tariffs.{Tariff, lay_bieu_gia_hieu_luc}
use ttcs_t926_k8s4_n1_csms.Billing.Tables.{TariffVersion, Station}
use ttcs_t926_k8s4_n1_csms.Billing.Invoicing.Occupation.{find_station}
use ttcs_t926_k8s4_n1_csms.Billing.Invoicing.Tariffs.{
  find_version, mark_version, danh_dau_bieu_gia_da_dung,
}
use ttcs_t926_k8s4_n1_csms.Pricing.Versions.{
  ActorScope, TariffRequest, put_version, version_row, tao_bieu_gia, edit_tariff,
}
use ttcs_t926_k8s4_n1_csms.Pricing.Versions.Made.{Made, Remade, tao_bieu_gia-ok, edit_tariff-ok}
use ttcs_t926_k8s4_n1_csms.Pricing.Versions.Rows.{
  Keyed, Dated, mark_version-Keyed, mark_version-Dated, has_date-none, put_version-Keyed,
  put_version-Dated,
}
use ttcs_t926_k8s4_n1_csms.Pricing.Versions.InForce.{charged_on, mark_version-tariffs}
use ttcs_t926_k8s4_n1_csms.Pricing.Versions.Begun.{All-map, Begun, created-Kept, edited-Kept}
use ttcs_t926_k8s4_n1_csms.Wallet.Tables.{Db}
use ttcs_t926_k8s4_n1_csms.Wallet.Tx.{ok}
use ttcs_t926_k8s4_n1_csms.Wallet.Tx.Invert.{or_raise-ok, ok_state}

-- No two versions have one id, and no two of a station begin on one day.
pub record Versions (db : Db) : Type 0 where
  pub keyed : Keyed db.tariffs
  pub dated : Dated db.tariffs

-- One transaction at a time. The clock of an edit's second check is not before that of its first.
pub data Step (now : ℕ) (db : Db) : Db → Type 0 where
  created :
      (fresh station : ℕ) (scope : ActorScope) (request : TariffRequest) (v : TariffVersion)
      {db' : Db}
      → All (λ (u : TariffVersion). u.tariff.id ≢ fresh) db.tariffs
      → tao_bieu_gia now fresh scope station request db ≡ ok (v, db')
      → Step now db db'
  edited :
      (dated again station tariff : ℕ) (scope : ActorScope) (request : TariffRequest)
      (v : TariffVersion) {db' : Db}
      → now ≤ dated
      → edit_tariff now dated again scope station tariff request db ≡ ok (v, db')
      → Step now db db'
  used :
      (station tariff : ℕ) (v : TariffVersion) {db' : Db}
      → danh_dau_bieu_gia_da_dung now station tariff db ≡ ok (v, db')
      → Step now db db'

-- Steps from one time on.
pub data History (from : ℕ) (db : Db) : Db → Type 0 where
  start : History from db db
  later :
      (now : ℕ) {db1 db2 : Db}
      → History from db db1
      → from ≤ now
      → Step now db1 db2
      → History from db db2

pub danh_dau_bieu_gia_da_dung-ok :
    (now station tariff : ℕ) (v : TariffVersion) (db db' : Db)
    → danh_dau_bieu_gia_da_dung now station tariff db ≡ ok (v, db')
    → record db { tariffs = mark_version now station tariff db.tariffs } ≡ db'
unfolding danh_dau_bieu_gia_da_dung
danh_dau_bieu_gia_da_dung-ok now station tariff v db db' h =
    let (u, found, h1) = or_raise-ok (find_version station tariff db.tariffs) _ _ db h in
    ok_state h1

Step-stations : {now : ℕ} {db db' : Db} → Step now db db' → db'.stations ≡ db.stations
Step-stations {now} {db} {db'} (created fresh station scope request v unseen e) =
    ap (λ (x : Db). x.stations) (tao_bieu_gia-ok now fresh station scope request v db db' e).after
Step-stations {now} {db} {db'} (edited dated again station tariff scope request v order e) =
    ap (λ (x : Db). x.stations)
      (edit_tariff-ok now dated again station tariff scope request v db db' e).after
Step-stations {now} {db} {db'} (used station tariff v e) =
    ap (λ (x : Db). x.stations) (sym (danh_dau_bieu_gia_da_dung-ok now station tariff v db db' e))

Made-Versions :
    (now fresh station : ℕ) (request : TariffRequest) (v : TariffVersion) (db db' : Db)
    → All (λ (u : TariffVersion). u.tariff.id ≢ fresh) db.tariffs
    → Made now fresh station request v db db'
    → Versions db
    → Versions db'
Made-Versions now fresh station request v db db' unseen m k = subst Versions (sym m.after) (
    subst (λ (x : TariffVersion). Versions (record db { tariffs = x ∷ db.tariffs })) (sym m.is)
      record {
        keyed = (unseen, k.keyed);
        dated = (
          All-map db.tariffs (λ u f. f refl)
              (has_date-none station request.effective_from none db.tariffs m.free.alone),
          k.dated,
        );
      })

Remade-Versions :
    (now dated station tariff : ℕ) (request : TariffRequest) (v : TariffVersion) (db db' : Db)
    → Remade now dated station tariff request v db db'
    → Versions db
    → Versions db'
Remade-Versions now dated station tariff request v db db' m k = subst Versions (sym m.after) (
    subst
      (λ (x : TariffVersion).
        Versions (record db { tariffs = put_version station tariff x db.tariffs }))
      (sym m.is)
      (let row = version_row tariff station m.old.used_at request m.normalized in
        record {
          keyed = put_version-Keyed station tariff row refl db.tariffs k.keyed;
          dated =
              put_version-Dated station tariff row refl db.tariffs refl k.keyed k.dated (
                has_date-none station request.effective_from (some tariff) db.tariffs m.free.alone);
        }))

pub Step-Versions : {now : ℕ} {db db' : Db} → Step now db db' → Versions db → Versions db'
Step-Versions {now} {db} {db'} (created fresh station scope request v unseen e) k =
    Made-Versions now fresh station request v db db' unseen
      (tao_bieu_gia-ok now fresh station scope request v db db' e) k
Step-Versions {now} {db} {db'} (edited dated again station tariff scope request v order e) k =
    Remade-Versions now dated station tariff request v db db'
      (edit_tariff-ok now dated again station tariff scope request v db db' e) k
Step-Versions {now} {db} {db'} (used station tariff v e) k =
    subst Versions (danh_dau_bieu_gia_da_dung-ok now station tariff v db db' e) record {
      keyed = mark_version-Keyed now station tariff db.tariffs k.keyed;
      dated = mark_version-Dated now station tariff db.tariffs k.dated;
    }

History-Versions : {from : ℕ} {db db' : Db} → History from db db' → Versions db → Versions db'
History-Versions start k = k
History-Versions (later now h order s) k = Step-Versions s (History-Versions h k)

module _ (station : ℕ) (place : Station)
    (forward : (a b : ℕ) → a ≤ b → place.timezone.date_of a ≤ place.timezone.date_of b) (day : ℕ)
    (t : Tariff) where
  Step-Begun :
      {now : ℕ} {db db' : Db}
      → Step now db db'
      → Versions db
      → Begun station place forward day t now db
      → charged_on station day db'.tariffs ≡ some t
  Step-Begun {now} {db} {db'} (created fresh at scope request v unseen e) k b =
      created-Kept station place forward day t now fresh at request v db db'
        (tao_bieu_gia-ok now fresh at scope request v db db' e) b
  Step-Begun {now} {db} {db'} (edited dated again at tariff scope request v order e) k b =
      edited-Kept station place forward day t now dated at tariff request v db db' order k.keyed
        (edit_tariff-ok now dated again at tariff scope request v db db' e) b
  Step-Begun {now} {db} {db'} (used at tariff v e) k b =
      ap (λ (x : Db). charged_on station day x.tariffs)
        (sym (danh_dau_bieu_gia_da_dung-ok now at tariff v db db' e))
      ∙ ap (lay_bieu_gia_hieu_luc station day) (mark_version-tariffs now at tariff db.tariffs)
      ∙ b.2

  History-stations : {from : ℕ} {db db' : Db} → History from db db' → db'.stations ≡ db.stations
  History-stations start = refl
  History-stations (later now h order s) = Step-stations s ∙ History-stations h

  History-Begun :
      {from : ℕ} {db db' : Db}
      → History from db db'
      → Versions db
      → Begun station place forward day t from db
      → charged_on station day db'.tariffs ≡ some t
  History-Begun start k b = b.2
  History-Begun {from} {db} (later now {db1} h order s) k b = Step-Begun s (History-Versions h k) (
    ap (find_station station) (History-stations h) ∙ b.0,
    omega (arith, b.1, forward from now order),
    History-Begun h k b,
  )

-- Whatever versions are created, edited and marked as used from a time on, no two versions get one id
-- and no two of a station begin on one day. The tariff in force on a day of a station that has begun
-- by then, once there is one, stays in force on it with its rates.
pub History-Kept :
    (station from day : ℕ) (place : Station) (t : Tariff) (db db' : Db)
    → ((a b : ℕ) → a ≤ b → place.timezone.date_of a ≤ place.timezone.date_of b)
    → Versions db
    → find_station station db.stations ≡ some place
    → day ≤ place.timezone.date_of from
    → charged_on station day db.tariffs ≡ some t
    → History from db db'
    → Versions db' × (charged_on station day db'.tariffs ≡ some t)
History-Kept station from day place t db db' forward k stored begun has h =
    (History-Versions h k, History-Begun station place forward day t h k (stored, begun, has))
