-- ===== src/Pricing/Versions/Stored.antt =====
-- A version that tao_bieu_gia or edit_tariff (modules/pricing) has written, as an invoice reads it.
use ttcs_t926_k8s4_n1_csms.Base.{ℕ, ◌<◌, ◌≡◌, ap, ◌∙◌, List, [], ◌∷◌, map, ◌⊎◌, inl, inr}
use ttcs_t926_k8s4_n1_csms.Pricing.Bands.{Span, Rate, valid_bands, kiem_khung_gio}
use ttcs_t926_k8s4_n1_csms.Pricing.Bands.Cover.{at_minute}
use ttcs_t926_k8s4_n1_csms.Pricing.Bands.Day.{band_at}
use ttcs_t926_k8s4_n1_csms.Pricing.Bands.Minutes.{kiem_khung_gio_each_minute}
use ttcs_t926_k8s4_n1_csms.Billing.Invoicing.Tariffs.{order_bands}
use ttcs_t926_k8s4_n1_csms.Billing.Tables.{TariffVersion}
use ttcs_t926_k8s4_n1_csms.Pricing.Versions.{
  ActorScope, TariffRequest, band_row, tao_bieu_gia, edit_tariff,
}
use ttcs_t926_k8s4_n1_csms.Pricing.Versions.Made.{tao_bieu_gia-ok, edit_tariff-ok}
use ttcs_t926_k8s4_n1_csms.Wallet.Tables.{Db}
use ttcs_t926_k8s4_n1_csms.Wallet.Tx.{ok}
use ttcs_t926_k8s4_n1_csms.Pricing.Versions.Reread.{kiem_khung_gio-rows}

-- A version that was created or edited for a request.
abbrev pub Written : TariffRequest → TariffVersion → Db → Db → Type 0
Written request v db db' =
    ((now : ℕ) × (fresh : ℕ) × (station : ℕ) × (scope : ActorScope) × (tao_bieu_gia now fresh scope
          station request db
        ≡ ok (v, db')))
    ⊎ ((now : ℕ) × (dated : ℕ) × (again : ℕ) × (station : ℕ) × (tariff : ℕ) × (scope : ActorScope)
        × (edit_tariff now dated again scope station tariff request db ≡ ok (v, db')))

-- The bands of a row that an invoice reads, with the one price and label of each minute of the request.
abbrev pub Reads : TariffRequest → TariffVersion → Type 0
Reads request v =
    (read : List (Span Rate)) × (kiem_khung_gio (order_bands v.bands) ≡ valid_bands read)
    × ((m : ℕ)
        → m < 1440
        → (r : Rate) × (band_at m request.bands ≡ r ∷ []) × (at_minute m read ≡ r ∷ []))

normalized-Reads :
    (request : TariffRequest) (v : TariffVersion) (out : List (Span Rate))
    → kiem_khung_gio request.bands ≡ valid_bands out
    → v.bands ≡ map band_row out
    → Reads request v
normalized-Reads request v out h e =
    let (read, again, same) = kiem_khung_gio-rows request.bands out h in
    (
      read,
      ap (λ x. kiem_khung_gio (order_bands x)) e ∙ again,
      λ m l.
          let (r, entered, kept) = kiem_khung_gio_each_minute request.bands out m h l in
          (r, entered, same m l ∙ kept),
    )

-- The bands of a version that tao_bieu_gia or edit_tariff has written pass the check again as an invoice
-- reads them, and each minute of the day has the one price and label that the request gives it.
pub Written-Reads :
    (request : TariffRequest) (v : TariffVersion) (db db' : Db)
    → Written request v db db'
    → Reads request v
Written-Reads request v db db' (inl (now, fresh, station, scope, e)) =
    let m = tao_bieu_gia-ok now fresh station scope request v db db' e in
    normalized-Reads request v m.normalized m.checked (ap (λ (x : TariffVersion). x.bands) m.is)
Written-Reads request v db db' (inr (now, dated, again, station, tariff, scope, e)) =
    let m = edit_tariff-ok now dated again station tariff scope request v db db' e in
    normalized-Reads request v m.normalized m.checked (ap (λ (x : TariffVersion). x.bands) m.is)
