-- ===== src/Billing/Invoicing/Tariffs.antt =====
-- `_daily_tariffs` of modules/billing/invoicing.py, with `danh_dau_bieu_gia_da_dung` of
-- modules/pricing/service.py: the tariff of every local date of a session, and its frames.
use ttcs_t926_k8s4_n1_csms.Base.{
  ℕ, zero, suc, ◌-◌, Bool, true, false, ◌&&◌, Option, none, some, List, [], ◌∷◌, ◌++◌, map,
  is_empty, ◌==◌, if◌then◌else◌,
}
use ttcs_t926_k8s4_n1_csms.Base.Int.{leb_ℤ}
use ttcs_t926_k8s4_n1_csms.Base.Text.{Text, codes, strip}
use ttcs_t926_k8s4_n1_csms.Pricing.Bands.{
  Band, Span, Rate, Checked, valid_bands, bands_error, kiem_khung_gio,
}
use ttcs_t926_k8s4_n1_csms.Pricing.Tariffs.{Tariff, lay_bieu_gia_hieu_luc}
use ttcs_t926_k8s4_n1_csms.Billing.Segmentation.Clock.{TariffFrame, clock}
use ttcs_t926_k8s4_n1_csms.Billing.Tables.{TariffVersion, Station}
use ttcs_t926_k8s4_n1_csms.Wallet.Tables.{Db}
use ttcs_t926_k8s4_n1_csms.Wallet.Uuid.{uuid_text}
use ttcs_t926_k8s4_n1_csms.Wallet.Tx.{
  tariff_not_found, invalid_invoice, ok, err, Tx, pure, gets, modify, or_raise, ◌>>=◌, ◌>>◌,
}

abbrev pub is_version : ℕ → ℕ → TariffVersion → Bool
is_version station tariff v = v.tariff.id == tariff && v.tariff.station_id == station

abbrev pub find_version : ℕ → ℕ → List TariffVersion → Option TariffVersion
find_version station tariff [] = none
find_version station tariff (v ∷ vs) =
    if is_version station tariff v then some v else find_version station tariff vs

-- `if tariff.used_at is None: tariff.used_at = timestamp`
abbrev pub used_by : ℕ → TariffVersion → TariffVersion
used_by now v = elim v.used_at [ none ↦ record v { used_at = some now } | some t ↦ v ]

abbrev pub mark_version : ℕ → ℕ → ℕ → List TariffVersion → List TariffVersion
mark_version now station tariff [] = []
mark_version now station tariff (v ∷ vs) =
    (if is_version station tariff v then used_by now v else v) ∷ mark_version now station tariff vs

-- The caller has locked the station's row, so the station exists.
unfoldable pub danh_dau_bieu_gia_da_dung : ℕ → ℕ → ℕ → Tx TariffVersion
danh_dau_bieu_gia_da_dung now station tariff = do
  v ← or_raise (← gets (λ db. find_version station tariff db.tariffs)) tariff_not_found
  modify (λ db. record db { tariffs = mark_version now station tariff db.tariffs })
  pure (used_by now v)

-- `order_by(TariffBand.start_min)`
abbrev pub put_band : Band Rate → List (Band Rate) → List (Band Rate)
put_band b [] = b ∷ []
put_band b (c ∷ cs) = if leb_ℤ b.start_min c.start_min then b ∷ c ∷ cs else c ∷ put_band b cs

abbrev pub order_bands : List (Band Rate) → List (Band Rate)
order_bands [] = []
order_bands (b ∷ bs) = put_band b (order_bands bs)

-- `b.label.strip() or f"{start}–{end}"`
abbrev pub frame_label : Text → ℕ → ℕ → Text
frame_label label start stop =
    let stripped = strip label in
    if is_empty stripped then clock start ++ 0x2013 ∷ clock stop else stripped

abbrev pub to_frame : ℕ → Span Rate → TariffFrame
to_frame tariff s = record {
  start_time = clock s.start;
  end_time = clock s.stop;
  price_vnd_per_kwh = s.payload.energy_rate_vnd_per_kwh;
  tariff_version = uuid_text tariff;
  frame_label = frame_label s.payload.label s.start s.stop;
}

abbrev pub frames_of : ℕ → Checked (List (Span Rate)) → Tx (List TariffFrame)
frames_of tariff (valid_bands spans) db = ok (map (to_frame tariff) spans, db)
frames_of tariff (bands_error issues) db = err (invalid_invoice (codes "invoice_invalid_tariff"))

-- A dict by date or by id: the newest key stands first.
abbrev pub look_up {ℓ} : {A : Type ℓ} → ℕ → List (ℕ × A) → Option A
look_up key [] = none
look_up key ((k, a) ∷ rest) = if k == key then some a else look_up key rest

-- `versions`, `frames` and `cached`.
pub record Daily : Type 0 where
  pub versions : List (ℕ × TariffVersion)
  pub frames : List (ℕ × List TariffFrame)
  pub cached : List (ℕ × List TariffFrame)

abbrev pub set_day : ℕ → TariffVersion → List TariffFrame → Daily → Daily
set_day day v fs d = record d { versions = (day, v) ∷ d.versions; frames = (day, fs) ∷ d.frames }

module _ (now : ℕ) (mark_used : Bool) (station : Station) where
  abbrev pub marked : Bool → TariffVersion → Tx TariffVersion
  marked true v = danh_dau_bieu_gia_da_dung now station.id v.tariff.id
  marked false v = pure v

  -- The block under `if selected.id not in cached`, or nothing.
  unfoldable pub ensure_frames :
      TariffVersion
      → Option (List TariffFrame)
      → Daily
      → Tx (TariffVersion × List TariffFrame × Daily)
  unfolding danh_dau_bieu_gia_da_dung
  ensure_frames v (some fs) d = pure (v, fs, d)
  ensure_frames v none d = do
    used ← marked mark_used v
    fs ← frames_of v.tariff.id (kiem_khung_gio (order_bands used.bands))
    pure (used, fs, record d { cached = (v.tariff.id, fs) ∷ d.cached })

  abbrev pub tariff_of : ℕ → Db → Option Tariff
  tariff_of day db =
      lay_bieu_gia_hieu_luc station.id day (map (λ (v : TariffVersion). v.tariff) db.tariffs)

  -- One turn of the loop.
  unfoldable pub tariff_on : ℕ → Daily → Tx Daily
  unfolding ensure_frames
  tariff_on day d = do
    t ← or_raise (← gets (tariff_of day)) (invalid_invoice (codes "invoice_missing_tariff"))
    v ← or_raise (← gets (λ db. find_version station.id t.id db.tariffs)) tariff_not_found
    (v', fs, d') ← ensure_frames v (look_up v.tariff.id d.cached) d
    pure (set_day day v' fs d')

  -- `while day <= last`, for `n` dates.
  unfoldable pub tariffs_from : ℕ → ℕ → Daily → Tx Daily
  unfolding tariff_on
  tariffs_from zero day d = pure d
  tariffs_from (suc n) day d = do d' ← tariff_on day d; tariffs_from n (suc day) d'

  -- `_daily_tariffs`
  unfoldable pub daily_tariffs : ℕ → ℕ → Tx Daily
  unfolding tariffs_from
  daily_tariffs start end =
      let first = station.timezone.date_of start in
      let last = station.timezone.date_of (end - 1) in
      tariffs_from (suc last - first) first record { versions = []; frames = []; cached = [] }
