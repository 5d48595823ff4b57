-- ===== src/Pricing/Versions/Used.antt =====
-- A version that an invoice has used is not changed by the operations of modules/pricing.
use ttcs_t926_k8s4_n1_csms.Base.{
  ℕ, ◌≡◌, ◌≢◌, refl, sym, ap, subst, ◌∙◌, Bool, true, false, ◌&&◌, Option, none, some, List, [],
  ◌∷◌, ◌==◌, Bool-cases, inl, inr, if◌then◌else◌, arith,
}
use ttcs_t926_k8s4_n1_csms.Billing.Tables.{TariffVersion}
use ttcs_t926_k8s4_n1_csms.Billing.Invoicing.Tariffs.{
  is_version, find_version, used_by, mark_version,
}
use ttcs_t926_k8s4_n1_csms.Pricing.Versions.{is_used, version_row, put_version}
use ttcs_t926_k8s4_n1_csms.Pricing.Versions.Made.{tao_bieu_gia-ok, edit_tariff-ok}
use ttcs_t926_k8s4_n1_csms.Pricing.Versions.Found.{find_version-All}
use ttcs_t926_k8s4_n1_csms.Pricing.Versions.History.{
  Step, created, edited, used, History, start, later, danh_dau_bieu_gia_da_dung-ok,
}
use ttcs_t926_k8s4_n1_csms.Wallet.Tables.{Db}

true_not_false : true ≡ false → ⊥
true_not_false h = cc

module _ (station tariff : ℕ) (v : TariffVersion) where
  used_by-used : (now : ℕ) → is_used v ≡ true → used_by now v ≡ v
  used_by-used now h = go v.used_at h
    where
      go :
          (o : Option ℕ)
          → elim o [ none ↦ false | some t ↦ true ] ≡ true
          → elim o [ none ↦ record v { used_at = some now } | some t ↦ v ] ≡ v
      go none k = cc
      go (some t) k = refl

  -- A row in the place of another with its keys, where `v` stays itself.
  head_kept :
      (x x' : TariffVersion) (rest rest' : Option TariffVersion)
      → is_version station tariff x' ≡ is_version station tariff x
      → (x ≡ v → x' ≡ v)
      → (rest ≡ some v → rest' ≡ some v)
      → (if is_version station tariff x then some x else rest) ≡ some v
      → (if is_version station tariff x' then some x' else rest') ≡ some v
  head_kept x x' rest rest' e f g h =
      ap (λ b. if b then some x' else rest') e ∙ go (is_version station tariff x) h
    where
      go :
          (b : Bool)
          → (if b then some x else rest) ≡ some v
          → (if b then some x' else rest') ≡ some v
      go true k = let same : x ≡ v = cc in ap some (f same)
      go false k = g k

  mark_version-Frozen :
      (now at other : ℕ) (vs : List TariffVersion)
      → is_used v ≡ true
      → find_version station tariff vs ≡ some v
      → find_version station tariff (mark_version now at other vs) ≡ some v
  mark_version-Frozen now at other [] u f = cc
  mark_version-Frozen now at other (x ∷ xs) u f =
      let (keys, same) = go (is_version at other x) in
      head_kept x (if is_version at other x then used_by now x else x)
        (find_version station tariff xs)
        (find_version station tariff (mark_version now at other xs)) keys same
        (mark_version-Frozen now at other xs u) f
    where
      keys_kept :
          (o : Option ℕ)
          → is_version station tariff
              (elim o [ none ↦ record x { used_at = some now } | some t ↦ x ])
            ≡ is_version station tariff x
      keys_kept none = refl
      keys_kept (some t) = refl

      go :
          (c : Bool)
          → (is_version station tariff (if c then used_by now x else x)
              ≡ is_version station tariff x)
            × (x ≡ v → (if c then used_by now x else x) ≡ v)
      go true = (keys_kept x.used_at, λ e. ap (used_by now) e ∙ used_by-used now u)
      go false = (refl, λ e. e)

  -- A write to a version with other keys.
  put_version-other :
      (at other : ℕ) (w : TariffVersion) (vs : List TariffVersion)
      → (other == tariff && at == station) ≡ false
      → w.tariff.id ≡ other
      → w.tariff.station_id ≡ at
      → find_version station tariff (put_version at other w vs) ≡ find_version station tariff vs
  put_version-other at other w [] n i s = refl
  put_version-other at other w (x ∷ xs) n i s =
      ground (arith, put_version-other at other w xs n i s)

  skip_other :
      (x : TariffVersion) (vs : List TariffVersion)
      → x.tariff.id ≢ tariff
      → find_version station tariff (x ∷ vs) ≡ find_version station tariff vs
  skip_other x vs n = ground arith

  same_version-used :
      (at other : ℕ) (old : TariffVersion) (vs : List TariffVersion)
      → (other == tariff && at == station) ≡ true
      → find_version at other vs ≡ some old
      → is_used old ≡ false
      → find_version station tariff vs ≡ some v
      → is_used v ≡ true
      → ⊥
  same_version-used at other old vs q g i f u =
      let o : other ≡ tariff = ground arith in
      let a : at ≡ station = ground arith in
      let there : find_version station tariff vs ≡ some old =
        subst (λ x. find_version station x vs ≡ some old) o
          (subst (λ x. find_version x other vs ≡ some old) a g) in
      let same : old ≡ v = cc in true_not_false (sym u ∙ ap is_used (sym same) ∙ i)

  Step-Frozen :
      {now : ℕ} {db db' : Db}
      → Step now db db'
      → is_used v ≡ true
      → find_version station tariff db.tariffs ≡ some v
      → find_version station tariff db'.tariffs ≡ some v
  Step-Frozen {now} {db} {db'} (created fresh at scope request w unseen e) u f =
      let m = tao_bieu_gia-ok now fresh at scope request w db db' e in
      let (differs, is) =
        find_version-All (λ x. x.tariff.id ≢ fresh) station tariff db.tariffs v f unseen in
      ap (λ (x : Db). find_version station tariff x.tariffs) m.after
      ∙ ap (λ (x : TariffVersion). find_version station tariff (x ∷ db.tariffs)) m.is
      ∙ skip_other (version_row fresh at none request m.normalized) db.tariffs
          (λ q. differs (is ∙ sym q))
      ∙ f
  Step-Frozen {now} {db} {db'} (edited dated again at other scope request w order e) u f =
      let m = edit_tariff-ok now dated again at other scope request w db db' e in
      ap (λ (x : Db). find_version station tariff x.tariffs) m.after
      ∙ elim (Bool-cases (other == tariff && at == station)) [
        | inl q ↦
            absurd
              (same_version-used at other m.old db.tariffs q m.editable.found m.editable.unused f u)
        | inr q ↦
            put_version-other at other w db.tariffs q (ap (λ (x : TariffVersion). x.tariff.id) m.is)
              (ap (λ (x : TariffVersion). x.tariff.station_id) m.is)
            ∙ f
      ]
  Step-Frozen {now} {db} {db'} (used at other w e) u f =
      ap (λ (x : Db). find_version station tariff x.tariffs)
        (sym (danh_dau_bieu_gia_da_dung-ok now at other w db db' e))
      ∙ mark_version-Frozen now at other db.tariffs u f

  -- A stored version that an invoice has used is stored unchanged, with its date, its rates and its bands,
  -- after any sequence of creations, edits and marks.
  pub History-Used :
      (from : ℕ) (db db' : Db)
      → is_used v ≡ true
      → find_version station tariff db.tariffs ≡ some v
      → History from db db'
      → find_version station tariff db'.tariffs ≡ some v
  History-Used from db db' u f start = f
  History-Used from db db' u f (later now {db1} h order s) =
      Step-Frozen s u (History-Used from db db1 u f h)
