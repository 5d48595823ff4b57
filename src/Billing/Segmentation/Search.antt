-- ===== src/Billing/Segmentation/Search.antt =====
-- What the search of interpolate_meter_value (modules/billing/segmentation.py) finds on readings that
-- rise with time.
use ttcs_t926_k8s4_n1_csms.Base.{
  ℕ, ◌≤◌, ◌<◌, ◌≡◌, refl, sym, Bool, true, false, List, [], ◌∷◌, ltb, ◌==◌, if◌then◌else◌, ◌⊎◌, inl,
  inr, arith,
}
use ttcs_t926_k8s4_n1_csms.Base.Int.{ℤ, pos, ◌≤ℤ◌}
use ttcs_t926_k8s4_n1_csms.Base.Result.{ok}
use ttcs_t926_k8s4_n1_csms.Billing.Segmentation.Interpolation.{
  MeterValue, between, search_from, last_of,
}
use ttcs_t926_k8s4_n1_csms.Billing.Segmentation.Line.{
  ok_value, ≤ℤ_trans, between-ok, between-run, line_value, line_value_bounds, line_value_mono,
}

-- Readings after one: later in time, and no lower.
abbrev pub Rising : MeterValue → List MeterValue → Type 0
Rising before [] = Unit
Rising before (mv ∷ rest) =
    (before.timestamp < mv.timestamp) × (before.energy_wh ≤ℤ mv.energy_wh) × Rising mv rest

search-nothing :
    {A : Type 0} (t : ℕ) (before : MeterValue) {v : ℤ} {i : Bool}
    → search_from t before [] ≡ ok (v, i)
    → A
unfolding search_from
search-nothing t before k = cc

-- Where `search_from` finds an instant: at a reading, before it, or after it.
pub search-cases :
    (t : ℕ) (before mv : MeterValue) (rest : List MeterValue) (v : ℤ) (i : Bool)
    → before.energy_wh ≤ℤ mv.energy_wh
    → search_from t before (mv ∷ rest) ≡ ok (v, i)
    → (mv.timestamp ≡ t) × (v ≡ mv.energy_wh)
      ⊎ (t < mv.timestamp) × (v ≡ line_value t before mv)
      ⊎ (mv.timestamp < t) × (search_from t mv rest ≡ ok (v, i))
unfolding search_from
search-cases t before mv rest v i h k = go (mv.timestamp == t) (ltb t mv.timestamp) refl refl k
  where
    go :
        (c d : Bool)
        → (mv.timestamp == t) ≡ c
        → ltb t mv.timestamp ≡ d
        → (if c
            then ok (mv.energy_wh, false)
            else if d
            then between t before mv
            else search_from t mv rest)
          ≡ ok (v, i)
        → (mv.timestamp ≡ t) × (v ≡ mv.energy_wh)
          ⊎ (t < mv.timestamp) × (v ≡ line_value t before mv)
          ⊎ (mv.timestamp < t) × (search_from t mv rest ≡ ok (v, i))
    go true d e f k = inl (ground arith, ok_value (sym k))
    go false true e f k = inr (inl (ground arith, between-ok t before mv h k))
    go false false e f k = inr (inr (ground arith, k))

-- After a reading, no lower reading is found.
pub search-lower :
    (t : ℕ) (before : MeterValue) (rest : List MeterValue) (v : ℤ) (i : Bool)
    → Rising before rest
    → search_from t before rest ≡ ok (v, i)
    → before.energy_wh ≤ℤ v
search-lower t before [] v i r k = search-nothing t before k
search-lower t before (mv ∷ rest) v i (l, e, r) k = elim (search-cases t before mv rest v i e k) [
  | inl (_, is) ↦ rw is e
  | inr (inl (_, is)) ↦ rw is (line_value_bounds t before mv e).0
  | inr (inr (_, later)) ↦
      ≤ℤ_trans before.energy_wh mv.energy_wh v e (search-lower t mv rest v i r later)
]

pub search_mono :
    (t u : ℕ) (before : MeterValue) (rest : List MeterValue) (v w : ℤ) (i j : Bool)
    → Rising before rest
    → pos 0 ≤ℤ before.energy_wh
    → t ≤ u
    → search_from t before rest ≡ ok (v, i)
    → search_from u before rest ≡ ok (w, j)
    → v ≤ℤ w
search_mono t u before [] v w i j r z h k k' = search-nothing t before k
search_mono t u before (mv ∷ rest) v w i j (l, e, r) z h k k' =
    elim (search-cases t before mv rest v i e k) [
      | inl (at, is) ↦ rw is (elim (search-cases u before mv rest w j e k') [
        | inl (_, is') ↦ rw is' (omega arith)
        | inr (inl (less, _)) ↦ absurd (omega arith)
        | inr (inr (_, later)) ↦ search-lower u mv rest w j r later
      ])
      | inr (inl (less, is)) ↦ rw is (elim (search-cases u before mv rest w j e k') [
        | inl (_, is') ↦ rw is' (line_value_bounds t before mv e).1
        | inr (inl (_, is')) ↦ rw is' (line_value_mono t u before mv z e l h)
        | inr (inr (_, later)) ↦
            ≤ℤ_trans (line_value t before mv) mv.energy_wh w (line_value_bounds t before mv e).1
              (search-lower u mv rest w j r later)
      ])
      | inr (inr (more, later)) ↦ elim (search-cases u before mv rest w j e k') [
        | inl (at, _) ↦ absurd (omega arith)
        | inr (inl (less, _)) ↦ absurd (omega arith)
        | inr (inr (_, later')) ↦ search_mono t u mv rest v w i j r (omega arith) h later later'
      ]
    ]

pub last-above :
    (mv : MeterValue) (rest : List MeterValue)
    → Rising mv rest
    → mv.energy_wh ≤ℤ (last_of mv rest).energy_wh
last-above mv [] r = omega arith
last-above mv (mv' ∷ rest) (l, e, r) =
    ≤ℤ_trans mv.energy_wh mv'.energy_wh (last_of mv' rest).energy_wh e (last-above mv' rest r)

-- Up to the last reading, a search finds something, between the readings around.
pub search-found :
    (t : ℕ) (before : MeterValue) (rest : List MeterValue)
    → Rising before rest
    → before.timestamp < t
    → t ≤ (last_of before rest).timestamp
    → (v : ℤ) × (i : Bool) × (search_from t before rest ≡ ok (v, i))
      × (v ≤ℤ (last_of before rest).energy_wh)
unfolding search_from
search-found t before [] r h k = absurd (omega arith)
search-found t before (mv ∷ rest) (l, e, r) h k =
    go (mv.timestamp == t) (ltb t mv.timestamp) refl refl (λ m. search-found t mv rest r m k)
  where
    top : ℤ
    top = (last_of mv rest).energy_wh

    go :
        (c d : Bool)
        → (mv.timestamp == t) ≡ c
        → ltb t mv.timestamp ≡ d
        → (mv.timestamp < t
            → (v : ℤ) × (i : Bool) × (search_from t mv rest ≡ ok (v, i)) × (v ≤ℤ top))
        → (v : ℤ) × (i : Bool) × ((if c
              then ok (mv.energy_wh, false)
              else if d
              then between t before mv
              else search_from t mv rest)
            ≡ ok (v, i))
          × (v ≤ℤ top)
    go true d a b ih = (mv.energy_wh, false, refl, last-above mv rest r)
    go false true a b ih = (
      line_value t before mv,
      true,
      between-run t before mv e,
      ≤ℤ_trans (line_value t before mv) mv.energy_wh top (line_value_bounds t before mv e).1
          (last-above mv rest r),
    )
    go false false a b ih = ih (ground arith)
