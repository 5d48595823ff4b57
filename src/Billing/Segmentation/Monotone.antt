-- ===== src/Billing/Segmentation/Monotone.antt =====
-- `interpolate_meter_value` (modules/billing/segmentation.py) on readings that rise with time.
use ttcs_t926_k8s4_n1_csms.Base.{
  ℕ, ◌≤◌, ◌≡◌, refl, sym, ◌∙◌, Bool, false, ◌||◌, List, ◌∷◌, ltb, ◌==◌, Bool-cases, inl, inr, arith,
}
use ttcs_t926_k8s4_n1_csms.Base.Int.{ℤ, pos, ◌≤ℤ◌}
use ttcs_t926_k8s4_n1_csms.Base.Result.{ok}
use ttcs_t926_k8s4_n1_csms.Billing.Segmentation.Interpolation.{
  MeterValue, search_from, last_of, interpolate_meter_value,
}
use ttcs_t926_k8s4_n1_csms.Billing.Segmentation.Search.{
  Rising, search-cases, search-lower, search_mono, last-above, search-found,
}

search-first :
    (t : ℕ) (before first : MeterValue) (rest : List MeterValue)
    → Rising first rest
    → first.timestamp ≤ t
    → t ≤ (last_of first rest).timestamp
    → (v : ℤ) × (i : Bool) × (search_from t before (first ∷ rest) ≡ ok (v, i))
      × (first.energy_wh ≤ℤ v)
      × (v ≤ℤ (last_of first rest).energy_wh)
unfolding search_from
search-first t before first rest r h k = elim (Bool-cases (first.timestamp == t)) [
  | inl e ↦ rw e (first.energy_wh, false, refl, omega arith, last-above first rest r)
  | inr e ↦
      let (v, i, found, top) = search-found t first rest r (ground arith) k in
      let not_before : ltb t first.timestamp ≡ false = ground arith in
      (v, i, rw (e, not_before) found, search-lower t first rest v i r found, top)
]

-- At or after the first reading, the reading before it is not used.
search-before :
    (t : ℕ) (before first : MeterValue) (rest : List MeterValue)
    → first.timestamp ≤ t
    → search_from t before (first ∷ rest) ≡ search_from t first (first ∷ rest)
unfolding search_from
search-before t before first rest h =
    let not_before : ltb t first.timestamp ≡ false = ground arith in rw not_before refl

search-first_mono :
    (t u : ℕ) (first : MeterValue) (rest : List MeterValue) (v w : ℤ) (i j : Bool)
    → Rising first rest
    → pos 0 ≤ℤ first.energy_wh
    → first.timestamp ≤ t
    → t ≤ u
    → search_from t first (first ∷ rest) ≡ ok (v, i)
    → search_from u first (first ∷ rest) ≡ ok (w, j)
    → first.energy_wh ≤ℤ w
    → v ≤ℤ w
search-first_mono t u first rest v w i j r z a h k k' low =
    elim (search-cases t first first rest v i (omega arith) k) [
      | inl (_, is) ↦ rw is low
      | inr (inl (less, _)) ↦ absurd (omega arith)
      | inr (inr (more, later)) ↦ elim (search-cases u first first rest w j (omega arith) k') [
        | inl (at, _) ↦ absurd (omega arith)
        | inr (inl (less, _)) ↦ absurd (omega arith)
        | inr (inr (_, later')) ↦ search_mono t u first rest v w i j r z h later later'
      ]
    ]

-- Two instants in order, with what is read at them.
pub record Readings (ms : List MeterValue) (t u : ℕ) (first last : ℤ) : Type 0 where
  pub earlier : ℤ
  pub earlier_interp : Bool
  pub later : ℤ
  pub later_interp : Bool
  pub at_earlier : interpolate_meter_value t ms ≡ ok (earlier, earlier_interp)
  pub at_later : interpolate_meter_value u ms ≡ ok (later, later_interp)
  pub from_first : first ≤ℤ earlier
  pub in_order : earlier ≤ℤ later
  pub up_to_last : later ≤ℤ last

-- On readings in order of time that are not negative and never fall, interpolate_meter_value returns
-- at every instant from the first reading to the last, never a lower value at a later instant, and
-- always one from the first reading to the last.
pub interpolate_meter_value-Rising :
    (first : MeterValue) (rest : List MeterValue) (t u : ℕ)
    → Rising first rest
    → pos 0 ≤ℤ first.energy_wh
    → first.timestamp ≤ t
    → t ≤ u
    → u ≤ (last_of first rest).timestamp
    → Readings (first ∷ rest) t u first.energy_wh (last_of first rest).energy_wh
unfolding interpolate_meter_value
interpolate_meter_value-Rising first rest t u r z a h b =
    let last = last_of first rest in
    let (v, i, k, low, high) = search-first t last first rest r a (omega arith) in
    let (w, j, k', low', high') = search-first u last first rest r (omega arith) b in
    let in_t : (ltb t first.timestamp || ltb last.timestamp t) ≡ false = ground arith in
    let in_u : (ltb u first.timestamp || ltb last.timestamp u) ≡ false = ground arith in
    record {
      earlier = v;
      earlier_interp = i;
      later = w;
      later_interp = j;
      at_earlier = rw in_t k;
      at_later = rw in_u k';
      from_first = low;
      in_order =
          search-first_mono t u first rest v w i j r z a h
            (sym (search-before t last first rest a) ∙ k)
            (sym (search-before u last first rest (omega arith)) ∙ k') low';
      up_to_last = high';
    }
