-- ===== src/Wallet/Eligibility/Affords.antt =====
-- What a permission to charge says (modules/wallet/eligibility.py), and which tariff is in force
-- (modules/pricing/service.py).
use native.Mathlib.Nat.{mul-le-mul_left}
use ttcs_t926_k8s4_n1_csms.Base.{
  ℕ, ◌*◌, ◌≤◌, ◌≡◌, refl, ◌⊎◌, inl, inr, Bool, true, false, not, ◌&&◌, Option, none, some, List, [],
  ◌∷◌, All, ltb, if◌then◌else◌, arith,
}
use ttcs_t926_k8s4_n1_csms.Base.Int.{ℤ, pos, ◌≤ℤ◌}
use ttcs_t926_k8s4_n1_csms.Wallet.Tables.{Wallet, Db, find_driver_wallet}
use ttcs_t926_k8s4_n1_csms.Wallet.Service.{is_locked}
use ttcs_t926_k8s4_n1_csms.Wallet.Eligibility.{
  Tariff, in_force, newer, lay_bieu_gia_hieu_luc, highest, judge, with_rate, with_tariff, enough,
  du_so_du_de_sac,
}

abbrev pub Among : Tariff → List Tariff → Type 0
Among t [] = ⊥
Among t (u ∷ us) = (u ≡ t) ⊎ Among t us

-- A tariff of the list that is in force, none of it in force with a later start; or none of it is in
-- force.
abbrev pub Latest : ℕ → ℕ → Option Tariff → List Tariff → Type 0
Latest station day none ts = All (λ (u : Tariff). in_force station day u ≡ false) ts
Latest station day (some t) ts =
    Among t ts
    × (in_force station day t ≡ true)
    × All (λ (u : Tariff). in_force station day u ≡ true → u.effective_from ≤ t.effective_from) ts

All-later :
    (station day a b : ℕ) (ts : List Tariff)
    → a ≤ b
    → All (λ (u : Tariff). in_force station day u ≡ true → u.effective_from ≤ a) ts
    → All (λ (u : Tariff). in_force station day u ≡ true → u.effective_from ≤ b) ts
All-later station day a b [] l h = tt
All-later station day a b (t ∷ ts) l (h, k) =
    (λ q. let z = h q in omega arith, All-later station day a b ts l k)

All-none :
    (station day b : ℕ) (ts : List Tariff)
    → All (λ (u : Tariff). in_force station day u ≡ false) ts
    → All (λ (u : Tariff). in_force station day u ≡ true → u.effective_from ≤ b) ts
All-none station day b [] h = tt
All-none station day b (t ∷ ts) (h, k) = (λ q. cc, All-none station day b ts k)

-- The tariff in force is a stored one of the station that began by the day, and no stored one of it
-- that did has a later start; there is none only where no tariff of the station began.
pub lay_bieu_gia_hieu_luc-Latest :
    (station day : ℕ) (ts : List Tariff)
    → Latest station day (lay_bieu_gia_hieu_luc station day ts) ts
unfolding lay_bieu_gia_hieu_luc
lay_bieu_gia_hieu_luc-Latest station day [] = tt
lay_bieu_gia_hieu_luc-Latest station day (t ∷ ts) =
    go (in_force station day t) refl (lay_bieu_gia_hieu_luc station day ts)
      (lay_bieu_gia_hieu_luc-Latest station day ts)
  where
    go :
        (c : Bool)
        → in_force station day t ≡ c
        → (o : Option Tariff) → Latest station day o ts
        → Latest station day (if c then newer t o else o) (t ∷ ts)
    go false e none h = (e, h)
    go false e (some u) (m, f, h) = (inr m, f, (λ q. cc, h))
    go true e none h = (inl refl, e, (λ q. omega arith, All-none station day t.effective_from ts h))
    go true e (some u) (m, f, h) = pick (ltb t.effective_from u.effective_from) refl
      where
        pick :
            (d : Bool)
            → ltb t.effective_from u.effective_from ≡ d
            → Latest station day (if d then some u else some t) (t ∷ ts)
        pick true k = (inr m, f, (λ q. ground arith, h))
        pick false k = (
          inl refl,
          e,
          (
            λ q. omega arith,
            All-later station day u.effective_from t.effective_from ts (ground arith) h,
          ),
        )

highest-empty : (rs : List ℕ) (h : ℕ) → highest rs ≡ none → All (λ x. x ≤ h) rs
highest-empty [] h e = tt
highest-empty (r ∷ rs) h e = go (highest rs) e
  where
    go :
        (o : Option ℕ)
        → let here : Option ℕ = elim o [
          | none ↦ some r
          | some k ↦ some (if ltb r k then k else r)
        ] in
          here ≡ none → All (λ x. x ≤ h) (r ∷ rs)
    go none k = cc
    go (some m) k = cc

All-le : (a b : ℕ) (l : List ℕ) → a ≤ b → All (λ x. x ≤ a) l → All (λ x. x ≤ b) l
All-le a b [] l h = tt
All-le a b (x ∷ xs) l (h, k) = (omega arith, All-le a b xs l k)

highest-All : (rs : List ℕ) (h : ℕ) → highest rs ≡ some h → All (λ r. r ≤ h) rs
highest-All [] h e = tt
highest-All (r ∷ rs) h e = go (highest rs) refl (λ m f. highest-All rs m f) e
  where
    go :
        (o : Option ℕ)
        → highest rs ≡ o
        → ((m : ℕ) → highest rs ≡ some m → All (λ x. x ≤ m) rs)
        → let here : Option ℕ = elim o [
          | none ↦ some r
          | some k ↦ some (if ltb r k then k else r)
        ] in
          here ≡ some h → All (λ x. x ≤ h) (r ∷ rs)
    go none f ih k = let n : r ≡ h = cc in (omega arith, highest-empty rs h f)
    go (some m) f ih k =
        let n : (if ltb r m then m else r) ≡ h = cc in
        let (a, b) : (r ≤ h) × (m ≤ h) = (ground arith, ground arith) in
        (a, All-le m h rs b (ih m f))

-- The balance pays the minimum energy at every rate, or the reserve.
abbrev pub Affords : ℕ → ℕ → Option Tariff → Wallet → Type 0
Affords reserve kwh none w = pos reserve ≤ℤ w.balance_vnd
Affords reserve kwh (some t) w = All (λ r. pos (kwh * r) ≤ℤ w.balance_vnd) t.rates

judge-ok :
    (o : Option Wallet) (minimum : ℕ) (tariff : Option ℕ)
    → (judge o minimum tariff).allowed ≡ true
    → (w : Wallet) × (o ≡ some w)
      × (is_locked w.status ≡ false)
      × (pos 0 ≤ℤ w.balance_vnd)
      × (pos minimum ≤ℤ w.balance_vnd)
unfolding judge
judge-ok none minimum tariff h = cc
judge-ok (some w) minimum tariff h = go (is_locked w.status) refl (ground arith)
  where
    go :
        (l : Bool)
        → is_locked w.status ≡ l
        → (not l && enough w minimum) ≡ true
        → (v : Wallet) × (some w ≡ some v)
          × (is_locked v.status ≡ false)
          × (pos 0 ≤ℤ v.balance_vnd)
          × (pos minimum ≤ℤ v.balance_vnd)
    go true e k = cc
    go false e k = (w, refl, e, ground arith, ground arith)

All-rates :
    (kwh h : ℕ) (b : ℤ) (rs : List ℕ)
    → pos (kwh * h) ≤ℤ b
    → All (λ r. r ≤ h) rs
    → All (λ r. pos (kwh * r) ≤ℤ b) rs
All-rates kwh h b [] l a = tt
All-rates kwh h b (r ∷ rs) l (k, a) =
    let m = mul-le-mul_left kwh k in (omega arith, All-rates kwh h b rs l a)

-- Where charging is allowed the driver has an active wallet that is not in debt, and its balance pays
-- the minimum energy at the rate of every band of the tariff in force, or the reserve where no tariff
-- is in force.
pub du_so_du_de_sac-Affords :
    (reserve kwh : ℕ) (tariffs : List Tariff) (driver station day : ℕ) (db : Db)
    → (du_so_du_de_sac reserve kwh tariffs driver station day db).allowed ≡ true
    → (w : Wallet) × (find_driver_wallet driver db.wallets ≡ some w)
      × (is_locked w.status ≡ false)
      × (pos 0 ≤ℤ w.balance_vnd)
      × Affords reserve kwh (lay_bieu_gia_hieu_luc station day tariffs) w
unfolding du_so_du_de_sac with_tariff with_rate
du_so_du_de_sac-Affords reserve kwh tariffs driver station day db h =
    go (lay_bieu_gia_hieu_luc station day tariffs) h
  where
    rated :
        (t : Tariff) (o : Option ℕ)
        → highest t.rates ≡ o
        → (with_rate o kwh t.id (find_driver_wallet driver db.wallets)).allowed ≡ true
        → (w : Wallet) × (find_driver_wallet driver db.wallets ≡ some w)
          × (is_locked w.status ≡ false)
          × (pos 0 ≤ℤ w.balance_vnd)
          × Affords reserve kwh (some t) w
    rated t none e k = cc
    rated t (some r) e k =
        let (w, found, open_, solvent, pays) =
          judge-ok (find_driver_wallet driver db.wallets) (kwh * r) (some t.id) k in
        (
          w,
          found,
          open_,
          solvent,
          All-rates kwh r w.balance_vnd t.rates pays (highest-All t.rates r e),
        )

    go :
        (o : Option Tariff)
        → (with_tariff o reserve kwh (find_driver_wallet driver db.wallets)).allowed ≡ true
        → (w : Wallet) × (find_driver_wallet driver db.wallets ≡ some w)
          × (is_locked w.status ≡ false)
          × (pos 0 ≤ℤ w.balance_vnd)
          × Affords reserve kwh o w
    go none k = judge-ok (find_driver_wallet driver db.wallets) reserve none k
    go (some t) k = rated t (highest t.rates) refl k
