-- ===== src/Pricing/Versions/Made.antt =====
-- What tao_bieu_gia (modules/pricing/creation.py) and edit_tariff (modules/pricing/router.py) have checked
-- and written where they return.
use ttcs_t926_k8s4_n1_csms.Base.{ℕ, ◌≡◌, sym, ap, subst, ◌∙◌, none, some, List, ◌∷◌}
use ttcs_t926_k8s4_n1_csms.Pricing.Bands.{Span, Rate, valid_bands, kiem_khung_gio}
use ttcs_t926_k8s4_n1_csms.Billing.Tables.{TariffVersion, Station}
use ttcs_t926_k8s4_n1_csms.Wallet.Tables.{Db}
use ttcs_t926_k8s4_n1_csms.Wallet.Tx.{tariff_not_found, ok}
use ttcs_t926_k8s4_n1_csms.Wallet.Tx.Invert.{bind-ok, or_raise-ok, ok_state, ok_value}
use ttcs_t926_k8s4_n1_csms.Pricing.Versions.{
  ActorScope, get_station_by_id, kiem_bieu_gia_co_the_sua, kiem_ngay_hieu_luc, checked_bands,
  TariffRequest, version_row, put_version, tao_bieu_gia, edit_tariff,
}
use ttcs_t926_k8s4_n1_csms.Pricing.Versions.Guards.{
  Editable, Free, kiem_bieu_gia_co_the_sua-ok, kiem_ngay_hieu_luc-ok, checked_bands-ok,
  get_station-same,
}

-- What tao_bieu_gia has checked and written.
pub record Made (now fresh station : ℕ) (request : TariffRequest) (v : TariffVersion) (db db' : Db)
    : Type 0 where
  pub place : Station
  pub normalized : List (Span Rate)
  pub free : Free now station request.effective_from none place db
  pub checked : kiem_khung_gio request.bands ≡ valid_bands normalized
  pub is : v ≡ version_row fresh station none request normalized
  pub after : db' ≡ record db { tariffs = v ∷ db.tariffs }

pub tao_bieu_gia-ok :
    (now fresh station : ℕ) (scope : ActorScope) (request : TariffRequest) (v : TariffVersion)
    (db db' : Db)
    → tao_bieu_gia now fresh scope station request db ≡ ok (v, db')
    → Made now fresh station request v db db'
unfolding tao_bieu_gia
tao_bieu_gia-ok now fresh station scope request v db db' h =
    let (o, db1, e, h1) = bind-ok (get_station_by_id station scope) _ db h in
    let same1 = get_station-same scope station o db db1 e in
    let (s, there, h2) = or_raise-ok o tariff_not_found _ db1 h1 in
    let (normalized, db2, e2, h3) =
      bind-ok (checked_bands (kiem_khung_gio request.bands)) _ db1 h2 in
    let (checked, same2) = checked_bands-ok (kiem_khung_gio request.bands) normalized db1 db2 e2 in
    let (place, db3, e3, h4) =
      bind-ok (kiem_ngay_hieu_luc now now station request.effective_from none) _ db2 h3 in
    let (free, same3) =
      kiem_ngay_hieu_luc-ok now now station request.effective_from none place db2 db3 e3 in
    let to2 : db ≡ db2 = same1 ∙ same2 in
    let to3 : db ≡ db3 = to2 ∙ same3 in
    let row = version_row fresh station none request normalized in
    let put : Db = record db3 { tariffs = row ∷ db3.tariffs } in
    let is : row ≡ v = ok_value {db = put} h4 in
    record {
      place = place;
      normalized = normalized;
      free = subst (Free now station request.effective_from none place) (sym to2) free;
      checked = checked;
      is = sym is;
      after =
          sym (ok_state {db = put} h4)
          ∙ ap (λ (x : Db). record x { tariffs = row ∷ x.tariffs }) (sym to3)
          ∙ ap (λ x. record db { tariffs = x ∷ db.tariffs }) is;
    }

-- What edit_tariff has checked and written.
pub record Remade (now dated station tariff : ℕ) (request : TariffRequest) (v : TariffVersion)
    (db db' : Db) : Type 0 where
  pub old : TariffVersion
  pub place : Station
  pub normalized : List (Span Rate)
  pub editable : Editable now station tariff old db
  pub free : Free dated station request.effective_from (some tariff) place db
  pub checked : kiem_khung_gio request.bands ≡ valid_bands normalized
  pub is : v ≡ version_row tariff station old.used_at request normalized
  pub after : db' ≡ record db { tariffs = put_version station tariff v db.tariffs }

pub edit_tariff-ok :
    (now dated again station tariff : ℕ) (scope : ActorScope) (request : TariffRequest)
    (v : TariffVersion) (db db' : Db)
    → edit_tariff now dated again scope station tariff request db ≡ ok (v, db')
    → Remade now dated station tariff request v db db'
unfolding edit_tariff
edit_tariff-ok now dated again station tariff scope request v db db' h =
    let (o, db1, e, h1) = bind-ok (get_station_by_id station scope) _ db h in
    let same1 = get_station-same scope station o db db1 e in
    let (s, there, h2) = or_raise-ok o tariff_not_found _ db1 h1 in
    let (old, db2, e2, h3) = bind-ok (kiem_bieu_gia_co_the_sua now station tariff) _ db1 h2 in
    let (editable, same2) = kiem_bieu_gia_co_the_sua-ok now station tariff old db1 db2 e2 in
    let (normalized, db3, e3, h4) =
      bind-ok (checked_bands (kiem_khung_gio request.bands)) _ db2 h3 in
    let (checked, same3) = checked_bands-ok (kiem_khung_gio request.bands) normalized db2 db3 e3 in
    let (place, db4, e4, h5) =
      bind-ok (kiem_ngay_hieu_luc dated again station request.effective_from (some tariff)) _ db3
        h4 in
    let (free, same4) =
      kiem_ngay_hieu_luc-ok dated again station request.effective_from (some tariff) place db3 db4
        e4 in
    let to3 : db ≡ db3 = same1 ∙ same2 ∙ same3 in
    let to4 : db ≡ db4 = to3 ∙ same4 in
    let row = version_row tariff station old.used_at request normalized in
    let put : Db = record db4 { tariffs = put_version station tariff row db4.tariffs } in
    let is : row ≡ v = ok_value {db = put} h5 in
    record {
      old = old;
      place = place;
      normalized = normalized;
      editable = subst (Editable now station tariff old) (sym same1) editable;
      free = subst (Free dated station request.effective_from (some tariff) place) (sym to3) free;
      checked = checked;
      is = sym is;
      after =
          sym (ok_state {db = put} h5)
          ∙ ap (λ (x : Db). record x { tariffs = put_version station tariff row x.tariffs })
              (sym to4)
          ∙ ap (λ x. record db { tariffs = put_version station tariff x db.tariffs }) is;
    }
