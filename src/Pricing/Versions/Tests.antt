-- ===== src/Pricing/Versions/Tests.antt =====
-- Station 1 gets a second version from day 3, moves it to day 2, and an invoice uses the first one.
use ttcs_t926_k8s4_n1_csms.Base.{ℕ, ◌≡◌, refl, none, some, [], ◌∷◌, inl, arith}
use ttcs_t926_k8s4_n1_csms.Base.Int.{pos}
use ttcs_t926_k8s4_n1_csms.Base.Text.{codes}
use ttcs_t926_k8s4_n1_csms.Pricing.Bands.{
  Band, Rate, kiem_khung_gio, check_bands, band_issues, normalized, day_of, scan,
}
use ttcs_t926_k8s4_n1_csms.Pricing.Tariffs.{lay_bieu_gia_hieu_luc}
use ttcs_t926_k8s4_n1_csms.Billing.Segmentation.Tests.{ict, start}
use ttcs_t926_k8s4_n1_csms.Billing.Tables.{TariffVersion}
use ttcs_t926_k8s4_n1_csms.Billing.Invoicing.Tariffs.{find_version, danh_dau_bieu_gia_da_dung}
use ttcs_t926_k8s4_n1_csms.Billing.Invoicing.Tests.{tariff, site}
use ttcs_t926_k8s4_n1_csms.Pricing.Versions.{
  ActorScope, get_station_by_id, kiem_bieu_gia_co_the_sua, editable_if, kiem_ngay_hieu_luc,
  TariffRequest, tao_bieu_gia, edit_tariff,
}
use ttcs_t926_k8s4_n1_csms.Pricing.Versions.Stored.{Reads, Written-Reads}
use ttcs_t926_k8s4_n1_csms.Pricing.Versions.InForce.{charged_on}
use ttcs_t926_k8s4_n1_csms.Pricing.Versions.History.{
  Versions, created, edited, used, History, later, History-Kept,
}
use ttcs_t926_k8s4_n1_csms.Pricing.Versions.Used.{History-Used}
use ttcs_t926_k8s4_n1_csms.Wallet.Tables.{Db}
use ttcs_t926_k8s4_n1_csms.Wallet.Tx.{ok}

abbrev owner : ActorScope
owner = record { actor_id = 8; owner_id = some 8 }

-- A price that begins at 22:00, over midnight, and one for the day.
abbrev request : ℕ → TariffRequest
request day = record {
  effective_from = day;
  idle_rate_vnd_per_minute = 500;
  grace_minutes = 10;
  bands =
      record {
        start_min = pos 1320;
        end_min = pos 360;
        payload = record { energy_rate_vnd_per_kwh = pos 1000; label = codes "n" };
      }
      ∷ record {
        start_min = pos 360;
        end_min = pos 1320;
        payload = record { energy_rate_vnd_per_kwh = pos 2500; label = codes "d" };
      }
      ∷ [];
}

abbrev row : ℕ → ℕ → ℕ → Rate → Band Rate
row a b p r = record { start_min = pos a; end_min = pos b; payload = r }

abbrev version : ℕ → TariffVersion
version day =
    let night : Rate = record { energy_rate_vnd_per_kwh = pos 1000; label = codes "n" } in
    let light : Rate = record { energy_rate_vnd_per_kwh = pos 2500; label = codes "d" } in
    record {
      tariff = record {
        id = 6;
        station_id = 1;
        effective_from = day;
        rates = 1000 ∷ 2500 ∷ 1000 ∷ [];
      };
      used_at = none;
      idle_rate_vnd_per_minute = 500;
      grace_minutes = 10;
      bands = row 0 360 1000 night ∷ row 360 1320 2500 light ∷ row 1320 1440 1000 night ∷ [];
    }

abbrev grown : Db
grown = record site { tariffs = version 3 ∷ tariff ∷ [] }

abbrev moved : Db
moved = record site { tariffs = version 2 ∷ tariff ∷ [] }

abbrev billed : Db
billed = record site { tariffs = version 2 ∷ record tariff { used_at = some start } ∷ [] }

grown_lem : tao_bieu_gia start 6 owner 1 (request 3) site ≡ ok (version 3, grown)
unfolding tao_bieu_gia get_station_by_id kiem_ngay_hieu_luc editable_if kiem_khung_gio check_bands
    band_issues normalized day_of scan
grown_lem = refl

moved_lem : edit_tariff start start start owner 1 6 (request 2) grown ≡ ok (version 2, moved)
unfolding edit_tariff get_station_by_id kiem_bieu_gia_co_the_sua kiem_ngay_hieu_luc editable_if
    kiem_khung_gio check_bands band_issues normalized day_of scan
moved_lem = refl

billed_lem :
    danh_dau_bieu_gia_da_dung start 1 5 moved ≡ ok (record tariff { used_at = some start }, billed)
unfolding danh_dau_bieu_gia_da_dung
billed_lem = refl

site-Versions : Versions site
site-Versions = record { keyed = (tt, tt); dated = (tt, tt) }

three_steps : History start site billed
three_steps =
    later start
      (later start
        (later start History.start (omega arith)
          (created 6 1 owner (request 3) (version 3) ((λ e. absurd (omega arith)), tt) grown_lem))
        (omega arith)
        (edited start start 1 6 owner (request 2) (version 2) (omega arith) moved_lem))
      (omega arith) (used 1 5 (record tariff { used_at = some start }) billed_lem)

begun_lem : charged_on 1 1 site.tariffs ≡ some tariff.tariff
unfolding lay_bieu_gia_hieu_luc
begun_lem = refl

History-Kept_example : Versions billed × (charged_on 1 1 billed.tariffs ≡ some tariff.tariff)
History-Kept_example =
    History-Kept 1 start 1 (record { id = 1; owner_id = 8; timezone = ict }) tariff.tariff site
      billed (λ a b h. omega arith) site-Versions refl (omega arith) begun_lem three_steps

Written-Reads_example : Reads (request 3) (version 3)
Written-Reads_example =
    Written-Reads (request 3) (version 3) site grown (inl (start, 6, 1, owner, grown_lem))

abbrev version_7 : ℕ → TariffVersion
version_7 day = record (version day) {
  tariff = record { id = 7; station_id = 1; effective_from = day; rates = 1000 ∷ 2500 ∷ 1000 ∷ [] };
}

abbrev again : Db
again = record billed { tariffs = version_7 9 ∷ billed.tariffs }

again_lem : tao_bieu_gia start 7 owner 1 (request 9) billed ≡ ok (version_7 9, again)
unfolding tao_bieu_gia get_station_by_id kiem_ngay_hieu_luc editable_if kiem_khung_gio check_bands
    band_issues normalized day_of scan
again_lem = refl

billed_found : find_version 1 5 billed.tariffs ≡ some (record tariff { used_at = some start })
billed_found = refl

History-Used_example :
    find_version 1 5 again.tariffs ≡ some (record tariff { used_at = some start })
History-Used_example =
    History-Used 1 5 (record tariff { used_at = some start }) start billed again refl billed_found
      (later start History.start (omega arith) (
        created 7 1 owner (request 9) (version_7 9)
          ((λ e. absurd (omega arith)), ((λ e. absurd (omega arith)), tt)) again_lem))
