-- ===== src/Billing/Invoicing/Drafts.antt =====
-- What `_meter_values`, `_daily_tariffs` and the other steps of `_create_invoice`
-- (modules/billing/invoicing.py) change before the invoice is added: the marks of use on tariffs.
use ttcs_t926_k8s4_n1_csms.Base.{
  ℕ, zero, suc, ◌≡◌, refl, sym, ap, subst, ◌∙◌, Bool, true, false, not, ◌||◌, length, ltb, Option,
  none, some, List, [], ◌∷◌, keep,
}
use ttcs_t926_k8s4_n1_csms.Base.Text.{text_eq}
use ttcs_t926_k8s4_n1_csms.Billing.Segmentation.Interpolation.{MeterValue}
use ttcs_t926_k8s4_n1_csms.Billing.Segmentation.Clock.{TariffFrame}
use ttcs_t926_k8s4_n1_csms.Billing.Tables.{
  ChargingSession, MeterSample, OccupationInterval, TariffVersion, Station,
}
use ttcs_t926_k8s4_n1_csms.Billing.Invoicing.Readings.{
  valid_reading, is_register_sample, order_samples, reading_at, put_reading, conflicts, decreases,
  add_sample, add_samples, meter_values,
}
use ttcs_t926_k8s4_n1_csms.Billing.Invoicing.Tariffs.{
  Daily, find_version, mark_version, order_bands, look_up, marked, danh_dau_bieu_gia_da_dung,
  frames_of, ensure_frames, tariff_of, tariff_on, tariffs_from, daily_tariffs,
}
use ttcs_t926_k8s4_n1_csms.Billing.Invoicing.{
  is_confirmed_of, order_intervals, any_unreleased, occupation, occupation_if,
}
use ttcs_t926_k8s4_n1_csms.Pricing.Bands.{
  Checked, valid_bands, bands_error, Span, Rate, kiem_khung_gio,
}
use ttcs_t926_k8s4_n1_csms.Wallet.Tables.{Db}
use ttcs_t926_k8s4_n1_csms.Wallet.Tx.{ok}
use ttcs_t926_k8s4_n1_csms.Wallet.Tx.Invert.{bind-ok, or_raise-ok, raise_if-ok, ok_state}

add_sample-same :
    (s : MeterSample) (r : List MeterValue) {x : List MeterValue} (db db' : Db)
    → add_sample s r db ≡ ok (x, db')
    → db ≡ db'
unfolding add_sample
add_sample-same s r db db' h =
    let (_, h1) = raise_if-ok (not (text_eq s.unit _)) _ _ db h in
    let (v, _, h2) = or_raise-ok (valid_reading (some s.value)) _ _ db h1 in
    let (_, h3) = raise_if-ok (conflicts (reading_at s.timestamp r) v) _ _ db h2 in ok_state h3

add_samples-same :
    (ss : List MeterSample) (r : List MeterValue) {x : List MeterValue} (db db' : Db)
    → add_samples ss r db ≡ ok (x, db')
    → db ≡ db'
unfolding add_samples
add_samples-same [] r db db' h = ok_state h
add_samples-same (s ∷ ss) r db db' h =
    let (grown, db1, e, k) = bind-ok (add_sample s r) _ db h in
    add_sample-same s r db db1 e ∙ add_samples-same ss grown db1 db' k

pub meter_values-same :
    (c : ChargingSession) (end : ℕ) {x : List MeterValue} (db db' : Db)
    → meter_values c end db ≡ ok (x, db')
    → db ≡ db'
unfolding meter_values
meter_values-same c end db db' h =
    let (a, _, h1) = or_raise-ok (valid_reading (some c.meter_start_wh)) _ _ db h in
    let (b, _, h2) = or_raise-ok (valid_reading c.meter_stop_wh) _ _ db h1 in
    let ss = order_samples (keep (is_register_sample c end) db.samples) in
    let r = put_reading end b (put_reading c.started_at a []) in
    let (o, db1, e, h3) = bind-ok (add_samples ss r) _ db h2 in
    let (_, h4) = raise_if-ok (decreases o) _ _ db1 h3 in
    add_samples-same ss r db db1 e ∙ ok_state h4

pub occupation_if-same :
    (b : Bool) (c : ChargingSession) {x : List OccupationInterval} (db db' : Db)
    → occupation_if b c db ≡ ok (x, db')
    → db ≡ db'
unfolding occupation_if occupation
occupation_if-same false c db db' h = ok_state h
occupation_if-same true c db db' h =
    let (r, _, h1) = or_raise-ok c.connector_released_at _ _ db h in
    let is = order_intervals (keep (is_confirmed_of c) db.intervals) in
    let (_, h2) = raise_if-ok (ltb 1 (length is) || any_unreleased r is) _ _ db h1 in ok_state h2

-- Nothing but the marks of use on tariffs changed.
abbrev pub OnlyTariffs : Db → Db → Type 0
OnlyTariffs db db' = (ts : List TariffVersion) × (db' ≡ record db { tariffs = ts })

OnlyTariffs-refl : (db : Db) → OnlyTariffs db db
OnlyTariffs-refl db = (db.tariffs, refl)

OnlyTariffs-trans : (a b c : Db) → OnlyTariffs a b → OnlyTariffs b c → OnlyTariffs a c
OnlyTariffs-trans a b c (ts, e) (us, f) = (us, f ∙ ap (λ (x : Db). record x { tariffs = us }) e)

module _ (now : ℕ) (mark_used : Bool) (station : Station) where
  marked-OnlyTariffs :
      (b : Bool) (v : TariffVersion) {x : TariffVersion} (db db' : Db)
      → marked now mark_used station b v db ≡ ok (x, db')
      → OnlyTariffs db db'
  unfolding danh_dau_bieu_gia_da_dung
  marked-OnlyTariffs false v db db' h = subst (OnlyTariffs db) (ok_state h) (OnlyTariffs-refl db)
  marked-OnlyTariffs true v db db' h =
      let (w, _, h1) = or_raise-ok (find_version station.id v.tariff.id db.tariffs) _ _ db h in
      (mark_version now station.id v.tariff.id db.tariffs, sym (ok_state h1))

  frames_of-same :
      (i : ℕ) (c : Checked (List (Span Rate))) {x : List TariffFrame} (db db' : Db)
      → frames_of i c db ≡ ok (x, db')
      → db ≡ db'
  frames_of-same i (valid_bands s) db db' h = cc
  frames_of-same i (bands_error e) db db' h = cc

  ensure_frames-OnlyTariffs :
      (v : TariffVersion) (o : Option (List TariffFrame)) (d : Daily)
      {x : TariffVersion × List TariffFrame × Daily} (db db' : Db)
      → ensure_frames now mark_used station v o d db ≡ ok (x, db')
      → OnlyTariffs db db'
  unfolding ensure_frames
  ensure_frames-OnlyTariffs v (some fs) d db db' h =
      subst (OnlyTariffs db) (ok_state h) (OnlyTariffs-refl db)
  ensure_frames-OnlyTariffs v none d db db' h =
      let (used, db1, e, k) = bind-ok (marked now mark_used station mark_used v) _ db h in
      let checked = kiem_khung_gio (order_bands used.bands) in
      let (fs, db2, e', k') = bind-ok (frames_of v.tariff.id checked) _ db1 k in
      let same : db1 ≡ db' = frames_of-same v.tariff.id checked db1 db2 e' ∙ ok_state k' in
      subst (OnlyTariffs db) same (marked-OnlyTariffs mark_used v db db1 e)

  tariff_on-OnlyTariffs :
      (day : ℕ) (d : Daily) {x : Daily} (db db' : Db)
      → tariff_on now mark_used station day d db ≡ ok (x, db')
      → OnlyTariffs db db'
  unfolding tariff_on
  tariff_on-OnlyTariffs day d db db' h =
      let (t, _, h1) = or_raise-ok (tariff_of now mark_used station day db) _ _ db h in
      let (v, _, h2) = or_raise-ok (find_version station.id t.id db.tariffs) _ _ db h1 in
      let o = look_up v.tariff.id d.cached in
      let (r, db1, e, k) = bind-ok (ensure_frames now mark_used station v o d) _ db h2 in
      subst (OnlyTariffs db) (ok_state k) (ensure_frames-OnlyTariffs v o d db db1 e)

  tariffs_from-OnlyTariffs :
      (n day : ℕ) (d : Daily) {x : Daily} (db db' : Db)
      → tariffs_from now mark_used station n day d db ≡ ok (x, db')
      → OnlyTariffs db db'
  unfolding tariffs_from
  tariffs_from-OnlyTariffs zero day d db db' h =
      subst (OnlyTariffs db) (ok_state h) (OnlyTariffs-refl db)
  tariffs_from-OnlyTariffs (suc n) day d db db' h =
      let (d1, db1, e, k) = bind-ok (tariff_on now mark_used station day d) _ db h in
      OnlyTariffs-trans db db1 db' (tariff_on-OnlyTariffs day d db db1 e)
        (tariffs_from-OnlyTariffs n (suc day) d1 db1 db' k)

  pub daily_tariffs-OnlyTariffs :
      (start end : ℕ) {x : Daily} (db db' : Db)
      → daily_tariffs now mark_used station start end db ≡ ok (x, db')
      → OnlyTariffs db db'
  unfolding daily_tariffs
  daily_tariffs-OnlyTariffs start end db db' h = tariffs_from-OnlyTariffs _ _ _ db db' h
