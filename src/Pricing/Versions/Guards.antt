-- ===== src/Pricing/Versions/Guards.antt =====
-- What the checks of modules/pricing/service.py have found where they return.
use ttcs_t926_k8s4_n1_csms.Base.{
  ℕ, ◌<◌, ◌≡◌, sym, ap, subst, ◌∙◌, Bool, true, false, ◌||◌, Option, none, some, List, leb, ◌==◌,
  arith,
}
use ttcs_t926_k8s4_n1_csms.Pricing.Bands.{Span, Rate, Checked, valid_bands, bands_error}
use ttcs_t926_k8s4_n1_csms.Billing.Tables.{TariffVersion, Station}
use ttcs_t926_k8s4_n1_csms.Billing.Invoicing.Occupation.{find_station}
use ttcs_t926_k8s4_n1_csms.Billing.Invoicing.Tariffs.{find_version}
use ttcs_t926_k8s4_n1_csms.Wallet.Tables.{Db}
use ttcs_t926_k8s4_n1_csms.Wallet.Tx.{ok, pure}
use ttcs_t926_k8s4_n1_csms.Wallet.Tx.Invert.{bind-ok, or_raise-ok, raise_if-ok, ok_state, ok_value}
use ttcs_t926_k8s4_n1_csms.Pricing.Versions.{
  ActorScope, if_owned, owned_station, get_station_by_id, is_used, kiem_bieu_gia_co_the_sua,
  versions_of, bad_date, has_date, editable_if, kiem_ngay_hieu_luc, checked_bands,
}

-- A version that may be edited: it begins after today, and no invoice has used it.
pub record Editable (now station tariff : ℕ) (v : TariffVersion) (db : Db) : Type 0 where
  pub place : Station
  pub stored : find_station station db.stations ≡ some place
  pub found : find_version station tariff db.tariffs ≡ some v
  pub later : place.timezone.date_of now < v.tariff.effective_from
  pub unused : is_used v ≡ false

pub kiem_bieu_gia_co_the_sua-ok :
    (now station tariff : ℕ) (v : TariffVersion) (db db' : Db)
    → kiem_bieu_gia_co_the_sua now station tariff db ≡ ok (v, db')
    → Editable now station tariff v db × (db ≡ db')
unfolding kiem_bieu_gia_co_the_sua
kiem_bieu_gia_co_the_sua-ok now station tariff v db db' h =
    let (s, stored, h1) = or_raise-ok (find_station station db.stations) _ _ db h in
    let (u, found, h2) = or_raise-ok (find_version station tariff db.tariffs) _ _ db h1 in
    let (fine, h3) =
      raise_if-ok (leb u.tariff.effective_from (s.timezone.date_of now) || is_used u) _
        (λ _. pure u) db h2 in
    let same : u ≡ v = ok_value h3 in
    (
      record {
        place = s;
        stored = stored;
        found = found ∙ ap some same;
        later =
            subst (λ (x : TariffVersion). s.timezone.date_of now < x.tariff.effective_from) same
              (ground arith);
        unused = subst (λ x. is_used x ≡ false) same (ground arith);
      },
      ok_state h3,
    )

editable_if-ok :
    (again station : ℕ) (exclude : Option ℕ) (db db' : Db)
    → editable_if again station exclude db ≡ ok (tt, db')
    → db ≡ db'
unfolding editable_if
editable_if-ok again station none db db' h = ok_state h
editable_if-ok again station (some tariff) db db' h =
    let (v, db1, e, h1) = bind-ok (kiem_bieu_gia_co_the_sua again station tariff) _ db h in
    (kiem_bieu_gia_co_the_sua-ok again station tariff v db db1 e).1 ∙ ok_state h1

-- A date that a version of the station may take.
pub record Free (now station effective_from : ℕ) (exclude : Option ℕ) (s : Station) (db : Db)
    : Type 0 where
  pub stored : find_station station db.stations ≡ some s
  pub dated :
      bad_date (s.timezone.date_of now) effective_from (versions_of station exclude db.tariffs)
      ≡ false
  pub alone : has_date effective_from (versions_of station exclude db.tariffs) ≡ false

pub kiem_ngay_hieu_luc-ok :
    (now again station effective_from : ℕ) (exclude : Option ℕ) (s : Station) (db db' : Db)
    → kiem_ngay_hieu_luc now again station effective_from exclude db ≡ ok (s, db')
    → Free now station effective_from exclude s db × (db ≡ db')
unfolding kiem_ngay_hieu_luc
kiem_ngay_hieu_luc-ok now again station effective_from exclude s db db' h =
    let (u, stored, h1) = or_raise-ok (find_station station db.stations) _ _ db h in
    let (_, db1, e, h2) = bind-ok (editable_if again station exclude) _ db h1 in
    let kept = editable_if-ok again station exclude db db1 e in
    let (dated, h3) =
      raise_if-ok
        (bad_date (u.timezone.date_of now) effective_from (versions_of station exclude db1.tariffs))
        _ _ db1 h2 in
    let (alone, h4) =
      raise_if-ok (has_date effective_from (versions_of station exclude db1.tariffs)) _
        (λ _. pure u) db1 h3 in
    let same : u ≡ s = ok_value h4 in
    (
      record {
        stored = stored ∙ ap some same;
        dated =
            subst
              (λ (x : Station).
                bad_date (x.timezone.date_of now) effective_from
                  (versions_of station exclude db.tariffs)
                ≡ false)
              same
              (subst
                (λ (x : Db).
                  bad_date (u.timezone.date_of now) effective_from
                    (versions_of station exclude x.tariffs)
                  ≡ false)
                (sym kept) dated);
        alone =
            subst
              (λ (x : Db). has_date effective_from (versions_of station exclude x.tariffs) ≡ false)
              (sym kept) alone;
      },
      kept ∙ ok_state h4,
    )

pub checked_bands-ok :
    (c : Checked (List (Span Rate))) (out : List (Span Rate)) (db db' : Db)
    → checked_bands c db ≡ ok (out, db')
    → (c ≡ valid_bands out) × (db ≡ db')
checked_bands-ok (valid_bands x) out db db' h = (ap valid_bands (ok_value h), ok_state h)
checked_bands-ok (bands_error x) out db db' h = cc

pub get_station-same :
    (scope : ActorScope) (station : ℕ) (o : Option Station) (db db' : Db)
    → get_station_by_id station scope db ≡ ok (o, db')
    → db ≡ db'
unfolding get_station_by_id
get_station-same scope station o db db' h = go scope.owner_id (find_station station db.stations) h
  where
    go :
        (owner : Option ℕ) (row : Option Station)
        → owned_station owner row db ≡ ok (o, db')
        → db ≡ db'
    go owner none k = ok_state k
    go none (some s) k = ok_state k
    go (some w) (some s) k = pick (s.owner_id == w) k
      where
        pick : (b : Bool) → if_owned b s db ≡ ok (o, db') → db ≡ db'
        pick true q = ok_state q
        pick false q = cc
