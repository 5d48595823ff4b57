-- ===== src/Pricing/Versions/Found.antt =====
-- The version that find_version finds in the table of tariffs (modules/pricing/service.py).
use ttcs_t926_k8s4_n1_csms.Base.{
  ℕ, ◌≡◌, ◌≢◌, refl, sym, subst, ◌∙◌, Bool, true, false, some, List, [], ◌∷◌, All, if◌then◌else◌,
  arith,
}
use ttcs_t926_k8s4_n1_csms.Billing.Tables.{TariffVersion}
use ttcs_t926_k8s4_n1_csms.Billing.Invoicing.Tariffs.{is_version, find_version}
use ttcs_t926_k8s4_n1_csms.Pricing.Versions.Rows.{Keyed}

pub find_version-All :
    (P : TariffVersion → Type 0) (station tariff : ℕ) (vs : List TariffVersion) (v : TariffVersion)
    → find_version station tariff vs ≡ some v
    → All P vs
    → P v × (v.tariff.id ≡ tariff)
find_version-All P station tariff [] v h a = cc
find_version-All P station tariff (u ∷ us) v h (p, a) =
    go (is_version station tariff u) refl h (λ k. find_version-All P station tariff us v k a)
  where
    go :
        (b : Bool)
        → is_version station tariff u ≡ b
        → (if b then some u else find_version station tariff us) ≡ some v
        → (find_version station tariff us ≡ some v → P v × (v.tariff.id ≡ tariff))
        → P v × (v.tariff.id ≡ tariff)
    go true e k f =
        let same : u ≡ v = cc in
        (subst P same p, subst (λ (x : TariffVersion). x.tariff.id ≡ tariff) same (ground arith))
    go false e k f = f k

id-absent :
    (P : TariffVersion → Type 0) (tariff : ℕ) (u : TariffVersion) (us : List TariffVersion)
    → u.tariff.id ≡ tariff
    → All (λ (x : TariffVersion). x.tariff.id ≢ u.tariff.id) us
    → All (λ (x : TariffVersion). x.tariff.id ≡ tariff → P x) us
id-absent P tariff u [] e a = tt
id-absent P tariff u (x ∷ xs) e (n, a) =
    ((λ i. absurd (n (i ∙ sym e))), id-absent P tariff u xs e a)

-- The version found is the only one with its id.
pub find_version-only :
    (station tariff : ℕ) (vs : List TariffVersion) (v : TariffVersion)
    → Keyed vs
    → find_version station tariff vs ≡ some v
    → All (λ (u : TariffVersion). u.tariff.id ≡ tariff → u ≡ v) vs
find_version-only station tariff [] v k h = tt
find_version-only station tariff (u ∷ us) v (n, k) h =
    go (is_version station tariff u) refl h (find_version-only station tariff us v k)
  where
    go :
        (b : Bool)
        → is_version station tariff u ≡ b
        → (if b then some u else find_version station tariff us) ≡ some v
        → (find_version station tariff us ≡ some v
            → All (λ (x : TariffVersion). x.tariff.id ≡ tariff → x ≡ v) us)
        → All (λ (x : TariffVersion). x.tariff.id ≡ tariff → x ≡ v) (u ∷ us)
    go true e q f = ((λ _. cc), id-absent (λ x. x ≡ v) tariff u us (ground arith) n)
    go false e q f =
        let (other, is) =
          find_version-All (λ x. x.tariff.id ≢ u.tariff.id) station tariff us v q n in
        ((λ i. absurd (other (is ∙ sym i))), f q)
