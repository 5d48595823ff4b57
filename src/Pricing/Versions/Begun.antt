-- ===== src/Pricing/Versions/Begun.antt =====
-- A day that has begun keeps its tariff when tao_bieu_gia or edit_tariff (modules/pricing) write a version.
use ttcs_t926_k8s4_n1_csms.Base.{
  ℕ, ◌<◌, ◌≤◌, ◌≡◌, refl, sym, ap, subst, ◌∙◌, Bool, true, false, Option, none, some, List, [], ◌∷◌,
  All, ◌==◌, ==_iff, arith,
}
use ttcs_t926_k8s4_n1_csms.Pricing.Tariffs.{Tariff}
use ttcs_t926_k8s4_n1_csms.Billing.Tables.{TariffVersion, Station}
use ttcs_t926_k8s4_n1_csms.Billing.Invoicing.Occupation.{find_station}
use ttcs_t926_k8s4_n1_csms.Billing.Invoicing.Tariffs.{is_version}
use ttcs_t926_k8s4_n1_csms.Pricing.Versions.{TariffRequest, is_excluded, versions_of, bad_date}
use ttcs_t926_k8s4_n1_csms.Pricing.Versions.Guards.{Free}
use ttcs_t926_k8s4_n1_csms.Pricing.Versions.Made.{Made, Remade}
use ttcs_t926_k8s4_n1_csms.Pricing.Versions.Rows.{Keyed}
use ttcs_t926_k8s4_n1_csms.Pricing.Versions.Found.{find_version-only}
use ttcs_t926_k8s4_n1_csms.Pricing.Versions.InForce.{
  charged_on, Idle, charged_on-skip, charged_on-put_version, charged_on-versions,
}
use ttcs_t926_k8s4_n1_csms.Wallet.Tables.{Db}

Idle-later :
    (station day : ℕ) (v : TariffVersion) → day < v.tariff.effective_from → Idle station day v
Idle-later station day v h = ground arith

Idle-elsewhere :
    (station at day : ℕ) (v : TariffVersion)
    → v.tariff.station_id ≡ at
    → (at == station) ≡ false
    → Idle station day v
Idle-elsewhere station at day v e h = ground arith

-- A version may take a free date only where it does not begin by a day that has a tariff.
Free-Idle :
    (today day effective_from : ℕ) (vs : List TariffVersion) (v : TariffVersion)
    (rest : List TariffVersion)
    → vs ≡ v ∷ rest
    → bad_date today effective_from vs ≡ false
    → day ≤ today
    → day < effective_from
Free-Idle today day effective_from vs v rest e h k =
    let late : bad_date today effective_from (v ∷ rest) ≡ false =
      subst (λ x. bad_date today effective_from x ≡ false) e h in
    ground arith

pub All-map :
    {P Q : TariffVersion → Type 0} (vs : List TariffVersion)
    → ((u : TariffVersion) → P u → Q u)
    → All P vs
    → All Q vs
All-map [] f a = tt
All-map (u ∷ us) f (p, a) = (f u p, All-map us f a)

All-all :
    {P : TariffVersion → Type 0} (vs : List TariffVersion) → ((u : TariffVersion) → P u) → All P vs
All-all [] f = tt
All-all (u ∷ us) f = (f u, All-all us f)

module _ (station : ℕ) (place : Station)
    (forward : (a b : ℕ) → a ≤ b → place.timezone.date_of a ≤ place.timezone.date_of b) (day : ℕ)
    (t : Tariff) where
  -- A day of the station that has begun.
  abbrev pub Begun : ℕ → Db → Type 0
  Begun now db =
      (find_station station db.stations ≡ some place)
      × (day ≤ place.timezone.date_of now)
      × (charged_on station day db.tariffs ≡ some t)

  same_place :
      (at : ℕ) (p : Station) (db : Db)
      → at ≡ station
      → find_station at db.stations ≡ some p
      → find_station station db.stations ≡ some place
      → p ≡ place
  same_place at p db here a b = cc

  -- A free date of the station is after the day.
  Free-later :
      (now clock at effective_from : ℕ) (exclude : Option ℕ) (p : Station) (db : Db)
      → at ≡ station
      → now ≤ clock
      → Free clock at effective_from exclude p db
      → All (λ (u : TariffVersion). is_excluded exclude u ≡ true → Idle station day u) db.tariffs
      → Begun now db
      → day < effective_from
  Free-later now clock at effective_from exclude p db here order free idle (stored, begun, has) =
      let (v, rest, some_version) = charged_on-versions station day exclude t db.tariffs idle has in
      let there : p ≡ place = same_place at p db here free.stored stored in
      Free-Idle (place.timezone.date_of clock) day effective_from
        (versions_of station exclude db.tariffs) v rest some_version
        (subst
          (λ (x : Station).
            bad_date (x.timezone.date_of clock) effective_from
              (versions_of station exclude db.tariffs)
            ≡ false)
          there
          (subst
            (λ a.
              bad_date (p.timezone.date_of clock) effective_from (versions_of a exclude db.tariffs)
              ≡ false)
            here free.dated))
        (omega (arith, forward now clock order))

  pub created-Kept :
      (now fresh at : ℕ) (request : TariffRequest) (v : TariffVersion) (db db' : Db)
      → Made now fresh at request v db db'
      → Begun now db
      → charged_on station day db'.tariffs ≡ some t
  created-Kept now fresh at request v db db' m begun =
      ap (λ (x : Db). charged_on station day x.tariffs) m.after
      ∙ charged_on-skip station day v db.tariffs (idle (at == station) refl)
      ∙ begun.2
    where
      idle : (b : Bool) → (at == station) ≡ b → Idle station day v
      idle false e =
          Idle-elsewhere station at day v (ap (λ (x : TariffVersion). x.tariff.station_id) m.is) e
      idle true e =
          let after =
            Free-later now now at request.effective_from none m.place db ((==_iff at station).0 e)
              (omega arith) m.free (All-all db.tariffs (λ u. cc)) begun in
          Idle-later station day v
            (subst (λ (x : TariffVersion). day < x.tariff.effective_from) (sym m.is) after)

  pub edited-Kept :
      (now dated at tariff : ℕ) (request : TariffRequest) (v : TariffVersion) (db db' : Db)
      → now ≤ dated
      → Keyed db.tariffs
      → Remade now dated at tariff request v db db'
      → Begun now db
      → charged_on station day db'.tariffs ≡ some t
  edited-Kept now dated at tariff request v db db' order keyed m begun =
      ap (λ (x : Db). charged_on station day x.tariffs) m.after
      ∙ charged_on-put_version station day at tariff v db.tariffs (new (at == station) refl)
          (All-map db.tariffs (λ u only e. old (at == station) refl u only e) only)
      ∙ begun.2
    where
      only : All (λ (u : TariffVersion). u.tariff.id ≡ tariff → u ≡ m.old) db.tariffs
      only = find_version-only at tariff db.tariffs m.old keyed m.editable.found

      was_later : at ≡ station → day < m.old.tariff.effective_from
      was_later here =
          let there : m.editable.place ≡ place =
            same_place at m.editable.place db here m.editable.stored begun.0 in
          let later =
            subst (λ (x : Station). x.timezone.date_of now < m.old.tariff.effective_from) there
              m.editable.later in
          omega (arith, later, begun.1)

      idle_old : at ≡ station → (u : TariffVersion) → u ≡ m.old → Idle station day u
      idle_old here u e =
          subst (Idle station day) (sym e) (Idle-later station day m.old (was_later here))

      new : (b : Bool) → (at == station) ≡ b → Idle station day v
      new false e =
          Idle-elsewhere station at day v (ap (λ (x : TariffVersion). x.tariff.station_id) m.is) e
      new true e =
          let here : at ≡ station = (==_iff at station).0 e in
          let after =
            Free-later now dated at request.effective_from (some tariff) m.place db here order
              m.free
              (All-map db.tariffs (λ u f x. idle_old here u (f ((==_iff u.tariff.id tariff).0 x)))
                only)
              begun in
          Idle-later station day v
            (subst (λ (x : TariffVersion). day < x.tariff.effective_from) (sym m.is) after)

      old :
          (b : Bool)
          → (at == station) ≡ b
          → (u : TariffVersion) → (u.tariff.id ≡ tariff → u ≡ m.old)
          → is_version at tariff u ≡ true
          → Idle station day u
      old false e u f q = Idle-elsewhere station at day u (ground arith) e
      old true e u f q = idle_old ((==_iff at station).0 e) u (f (ground arith))
