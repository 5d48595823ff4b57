-- ===== src/Pricing/Versions/Rows.antt =====
-- The rows of tariffs, as tao_bieu_gia, edit_tariff and danh_dau_bieu_gia_da_dung (modules/pricing)
-- leave them: the keys of the table.
use ttcs_t926_k8s4_n1_csms.Base.{
  ℕ, ◌≡◌, ◌≢◌, refl, sym, subst, ◌∙◌, Bool, true, false, Option, none, some, List, [], ◌∷◌, All,
  if◌then◌else◌, arith,
}
use ttcs_t926_k8s4_n1_csms.Billing.Tables.{TariffVersion}
use ttcs_t926_k8s4_n1_csms.Billing.Invoicing.Tariffs.{is_version, used_by, mark_version}
use ttcs_t926_k8s4_n1_csms.Pricing.Versions.{is_excluded, versions_of, has_date, put_version}

-- No two versions have one id.
abbrev pub Keyed : List TariffVersion → Type 0
Keyed [] = Unit
Keyed (v ∷ vs) = All (λ (u : TariffVersion). u.tariff.id ≢ v.tariff.id) vs × Keyed vs

-- The version is not one of the station's that begins on the day.
abbrev pub Elsewhere : ℕ → ℕ → TariffVersion → Type 0
Elsewhere station day u = u.tariff.station_id ≡ station → u.tariff.effective_from ≢ day

-- No two versions of a station begin on one day.
abbrev pub Dated : List TariffVersion → Type 0
Dated [] = Unit
Dated (v ∷ vs) = All (Elsewhere v.tariff.station_id v.tariff.effective_from) vs × Dated vs

-- A change of a version that keeps its id, its station and its day.
abbrev Same : TariffVersion → TariffVersion → Type 0
Same u v =
    (v.tariff.id ≡ u.tariff.id)
    × (v.tariff.station_id ≡ u.tariff.station_id)
    × (v.tariff.effective_from ≡ u.tariff.effective_from)

All-mark_version :
    (P : TariffVersion → Type 0) (now station tariff : ℕ) (vs : List TariffVersion)
    → ((u : TariffVersion) → P u → P (used_by now u))
    → All P vs
    → All P (mark_version now station tariff vs)
All-mark_version P now station tariff [] f a = tt
All-mark_version P now station tariff (u ∷ us) f (p, a) =
    (go (is_version station tariff u), All-mark_version P now station tariff us f a)
  where
    go : (b : Bool) → P (if b then used_by now u else u)
    go true = f u p
    go false = p

used_by-Same : (now : ℕ) (u : TariffVersion) → Same u (used_by now u)
used_by-Same now u = go u.used_at
  where
    go : (o : Option ℕ) → Same u (elim o [ none ↦ record u { used_at = some now } | some t ↦ u ])
    go none = (refl, refl, refl)
    go (some t) = (refl, refl, refl)

marked-Same :
    (now station tariff : ℕ) (u : TariffVersion)
    → Same u (if is_version station tariff u then used_by now u else u)
marked-Same now station tariff u = go (is_version station tariff u)
  where
    go : (b : Bool) → Same u (if b then used_by now u else u)
    go true = used_by-Same now u
    go false = (refl, refl, refl)

pub mark_version-Keyed :
    (now station tariff : ℕ) (vs : List TariffVersion)
    → Keyed vs
    → Keyed (mark_version now station tariff vs)
mark_version-Keyed now station tariff [] k = tt
mark_version-Keyed now station tariff (v ∷ vs) (a, k) =
    let (i, _, _) = marked-Same now station tariff v in
    (
      All-mark_version
          (λ u. u.tariff.id ≢ (if is_version station tariff v then used_by now v else v).tariff.id)
          now station tariff vs (λ u n e. n (sym (used_by-Same now u).0 ∙ e))
          (subst (λ x. All (λ (u : TariffVersion). u.tariff.id ≢ x) vs) (sym i) a),
      mark_version-Keyed now station tariff vs k,
    )

pub mark_version-Dated :
    (now station tariff : ℕ) (vs : List TariffVersion)
    → Dated vs
    → Dated (mark_version now station tariff vs)
mark_version-Dated now station tariff [] k = tt
mark_version-Dated now station tariff (v ∷ vs) (a, k) =
    let (_, s, d) = marked-Same now station tariff v in
    let v' : TariffVersion = if is_version station tariff v then used_by now v else v in
    (
      All-mark_version (Elsewhere v'.tariff.station_id v'.tariff.effective_from) now station tariff
          vs (λ u n e q. let (_, s', d') = used_by-Same now u in n (sym s' ∙ e) (sym d' ∙ q))
          (subst (λ x. All (Elsewhere x v'.tariff.effective_from) vs) (sym s)
            (subst (λ x. All (Elsewhere v.tariff.station_id x) vs) (sym d) a)),
      mark_version-Dated now station tariff vs k,
    )

-- The versions that a check of the date looks at do not begin on a free day.
pub has_date-none :
    (station day : ℕ) (exclude : Option ℕ) (vs : List TariffVersion)
    → has_date day (versions_of station exclude vs) ≡ false
    → All (λ (u : TariffVersion). is_excluded exclude u ≡ false → Elsewhere station day u) vs
has_date-none station day exclude [] h = tt
has_date-none station day exclude (u ∷ us) h =
    (λ e s d. ground arith, has_date-none station day exclude us (ground arith))

-- A version put in the place of the station's version with its id.
module _ (station tariff : ℕ) (v : TariffVersion) (numbered : v.tariff.id ≡ tariff) where
  All-put_version :
      (P : TariffVersion → Type 0) (vs : List TariffVersion)
      → ((u : TariffVersion) → is_version station tariff u ≡ true → P u → P v)
      → All P vs
      → All P (put_version station tariff v vs)
  All-put_version P [] f a = tt
  All-put_version P (u ∷ us) f (p, a) =
      (go (is_version station tariff u) refl, All-put_version P us f a)
    where
      go : (b : Bool) → is_version station tariff u ≡ b → P (if b then v else u)
      go true e = f u e p
      go false e = p

  version_id : (u : TariffVersion) → is_version station tariff u ≡ true → u.tariff.id ≡ v.tariff.id
  version_id u e = let same : u.tariff.id ≡ tariff = ground arith in same ∙ sym numbered

  pub put_version-Keyed :
      (vs : List TariffVersion) → Keyed vs → Keyed (put_version station tariff v vs)
  put_version-Keyed [] k = tt
  put_version-Keyed (u ∷ us) (a, k) = (
    All-put_version (λ x. x.tariff.id ≢ (if is_version station tariff u then v else u).tariff.id) us
        (λ x e n q. n (version_id x e ∙ q))
        (subst (λ i. All (λ (x : TariffVersion). x.tariff.id ≢ i) us)
          (head (is_version station tariff u) refl) a),
    put_version-Keyed us k,
  )
    where
      head :
          (b : Bool)
          → is_version station tariff u ≡ b
          → u.tariff.id ≡ (if b then v else u).tariff.id
      head true e = version_id u e
      head false e = refl

  put_version_absent :
      (vs : List TariffVersion)
      → All (λ (u : TariffVersion). u.tariff.id ≢ tariff) vs
      → put_version station tariff v vs ≡ vs
  put_version_absent [] a = refl
  put_version_absent (u ∷ us) (n, a) = ground (arith, put_version_absent us a)

  -- Every other version of the station begins on another day.
  abbrev FreeDay : TariffVersion → Type 0
  FreeDay u = is_excluded (some tariff) u ≡ false → Elsewhere station v.tariff.effective_from u

  others-Elsewhere :
      (vs : List TariffVersion)
      → All (λ (u : TariffVersion). u.tariff.id ≢ tariff) vs
      → All FreeDay vs
      → All (Elsewhere station v.tariff.effective_from) vs
  others-Elsewhere [] n a = tt
  others-Elsewhere (u ∷ us) (n, ns) (f, a) = (f (ground arith), others-Elsewhere us ns a)

  pub put_version-Dated :
      (vs : List TariffVersion)
      → v.tariff.station_id ≡ station
      → Keyed vs
      → Dated vs
      → All
          (λ (u : TariffVersion).
            is_excluded (some tariff) u ≡ false → Elsewhere station v.tariff.effective_from u)
          vs
      → Dated (put_version station tariff v vs)
  put_version-Dated [] at k d f = tt
  put_version-Dated (u ∷ us) at (n, k) (a, d) (f, fs) =
      go (is_version station tariff u) refl (put_version-Dated us at k d fs)
    where
      go :
          (b : Bool)
          → is_version station tariff u ≡ b
          → Dated (put_version station tariff v us)
          → Dated ((if b then v else u) ∷ put_version station tariff v us)
      go true e rest =
          let same : u.tariff.id ≡ tariff = ground arith in
          let others = subst (λ i. All (λ (x : TariffVersion). x.tariff.id ≢ i) us) same n in
          let absent = put_version_absent us others in
          (
            subst
                (λ (l : List TariffVersion).
                  All (Elsewhere v.tariff.station_id v.tariff.effective_from) l)
                (sym absent)
                (subst (λ s. All (Elsewhere s v.tariff.effective_from) us) (sym at)
                  (others-Elsewhere us others fs)),
            rest,
          )
      go false e rest = (
        All-put_version (Elsewhere u.tariff.station_id u.tariff.effective_from) us
            (λ x q p s day. f (ground arith) (sym s ∙ at) (sym day)) a,
        rest,
      )
