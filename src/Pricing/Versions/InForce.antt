-- ===== src/Pricing/Versions/InForce.antt =====
-- The tariff in force on a day that has begun is not changed by the operations of modules/pricing.
use ttcs_t926_k8s4_n1_csms.Base.{
  ℕ, ◌≡◌, refl, sym, ap, ◌∙◌, Bool, true, false, not, ◌&&◌, Option, none, some, List, [], ◌∷◌, All,
  map, ◌==◌, Bool-cases, inl, inr, if◌then◌else◌, arith,
}
use ttcs_t926_k8s4_n1_csms.Pricing.Tariffs.{Tariff, in_force, newer, lay_bieu_gia_hieu_luc}
use ttcs_t926_k8s4_n1_csms.Billing.Tables.{TariffVersion}
use ttcs_t926_k8s4_n1_csms.Billing.Invoicing.Tariffs.{is_version, mark_version}
use ttcs_t926_k8s4_n1_csms.Pricing.Versions.{is_excluded, versions_of, put_version}

abbrev pub tariffs_of : List TariffVersion → List Tariff
tariffs_of = map (λ (v : TariffVersion). v.tariff)

-- The tariff of a station on a day.
abbrev pub charged_on : ℕ → ℕ → List TariffVersion → Option Tariff
charged_on station day vs = lay_bieu_gia_hieu_luc station day (tariffs_of vs)

pub mark_version-tariffs :
    (now station tariff : ℕ) (vs : List TariffVersion)
    → tariffs_of (mark_version now station tariff vs) ≡ tariffs_of vs
mark_version-tariffs now station tariff [] = refl
mark_version-tariffs now station tariff (v ∷ vs) =
    go (is_version station tariff v) v.used_at (mark_version-tariffs now station tariff vs)
  where
    go :
        (b : Bool) (o : Option ℕ)
        → tariffs_of (mark_version now station tariff vs) ≡ tariffs_of vs
        → (if b then (elim o [ none ↦ record v { used_at = some now } | some t ↦ v ]) else v).tariff
            ∷ tariffs_of (mark_version now station tariff vs)
          ≡ v.tariff ∷ tariffs_of vs
    go true none ih = ap (λ x. v.tariff ∷ x) ih
    go true (some t) ih = ap (λ x. v.tariff ∷ x) ih
    go false o ih = ap (λ x. v.tariff ∷ x) ih

module _ (station day : ℕ) where
  -- A version that is not in force.
  abbrev pub Idle : TariffVersion → Type 0
  Idle u = in_force station day u.tariff ≡ false

  pub charged_on-skip :
      (v : TariffVersion) (vs : List TariffVersion)
      → Idle v
      → charged_on station day (v ∷ vs) ≡ charged_on station day vs
  unfolding lay_bieu_gia_hieu_luc
  charged_on-skip v vs h = rw h refl

  -- Versions that are not in force, in the place of others that are not.
  pub charged_on-put_version :
      (at tariff : ℕ) (v : TariffVersion) (vs : List TariffVersion)
      → Idle v
      → All (λ (u : TariffVersion). is_version at tariff u ≡ true → Idle u) vs
      → charged_on station day (put_version at tariff v vs) ≡ charged_on station day vs
  unfolding lay_bieu_gia_hieu_luc
  charged_on-put_version at tariff v [] h a = refl
  charged_on-put_version at tariff v (u ∷ us) h (f, a) =
      go (is_version at tariff u) refl (charged_on-put_version at tariff v us h a)
    where
      go :
          (b : Bool)
          → is_version at tariff u ≡ b
          → charged_on station day (put_version at tariff v us) ≡ charged_on station day us
          → charged_on station day ((if b then v else u) ∷ put_version at tariff v us)
            ≡ charged_on station day (u ∷ us)
      go true e ih = charged_on-skip v _ h ∙ ih ∙ sym (charged_on-skip u us (f e))
      go false e ih = ap (λ o. if in_force station day u.tariff then newer u.tariff o else o) ih

  -- A station with a tariff in force has a version that a check of the date looks at.
  pub charged_on-versions :
      (exclude : Option ℕ) (t : Tariff) (vs : List TariffVersion)
      → All (λ (u : TariffVersion). is_excluded exclude u ≡ true → Idle u) vs
      → charged_on station day vs ≡ some t
      → (v : TariffVersion) × (rest : List TariffVersion) × (versions_of station exclude vs
          ≡ v ∷ rest)
  unfolding lay_bieu_gia_hieu_luc
  charged_on-versions exclude t [] a h = cc
  charged_on-versions exclude t (u ∷ us) (f, a) h =
      elim (Bool-cases (u.tariff.station_id == station && not (is_excluded exclude u))) [
        | inl e ↦ (u, versions_of station exclude us, ground arith)
        | inr e ↦
            let idle : Idle u = elim (Bool-cases (is_excluded exclude u)) [
              | inl q ↦ f q
              | inr q ↦ ground arith
            ] in
            let (v, rest, k) =
              charged_on-versions exclude t us a (sym (charged_on-skip u us idle) ∙ h) in
            (v, rest, ground (arith, k))
      ]
