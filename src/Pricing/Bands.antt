-- ===== src/Pricing/Bands.antt =====
-- modules/pricing/bands.py and modules/stations/power_bands.py: the bands of a day, validated. The two
-- files have one algorithm, with a price and a label in one and a power limit in the other; here it is
-- written once for a payload `P` and the tests on it. The messages are the codes with their indices
-- and minutes in words, and are left out.
pub mod Points
pub mod Cover
pub mod Day
pub mod Minutes
mod Tests
use ttcs_t926_k8s4_n1_csms.Base.{
  ℕ, zero, suc, ◌^◌, ◌-◌, Bool, true, false, not, ◌&&◌, ◌||◌, Option, none, some, List, [], ◌∷◌,
  ◌++◌, length, is_empty, ltb, leb, ◌==◌, if◌then◌else◌,
}
use ttcs_t926_k8s4_n1_csms.Base.Int.{ℤ, pos, pos_part, ltb_ℤ, leb_ℤ, eqb_ℤ}
use ttcs_t926_k8s4_n1_csms.Base.Text.{Text}
pub use ttcs_t926_k8s4_n1_csms.Base.Sorted.{put_point}

pub data Code : Type 0 where
  invalid_time invalid_rate invalid_label invalid_power_limit gap overlap : Code

abbrev pub is_gap : Code → Bool
is_gap gap = true
is_gap _ = false

-- `start_min` and `end_min` are absent in the issues of one band.
pub record BandIssue : Type 0 where
  pub code : Code
  pub input_indices : List ℕ
  pub start_min : Option ℕ
  pub end_min : Option ℕ

pub data Checked (A : Type 0) : Type 0 where
  valid_bands : A → Checked A
  bands_error : List BandIssue → Checked A

-- `BandInput`, its payload apart.
pub record Band (P : Type 0) : Type 0 where
  pub start_min : ℤ
  pub end_min : ℤ
  pub payload : P

-- A band that passed the tests and does not go over midnight.
pub record Span (P : Type 0) : Type 0 where
  pub start : ℕ
  pub stop : ℕ
  pub payload : P
  pub index : ℕ

abbrev pub bad_time : {P : Type 0} → Band P → Bool
bad_time b =
    not (leb_ℤ (pos 0) b.start_min && ltb_ℤ b.start_min (pos 1440))
    || not (leb_ℤ (pos 0) b.end_min && leb_ℤ b.end_min (pos 1440))
    || eqb_ℤ b.start_min b.end_min

abbrev pub at_band : ℕ → List Code → List BandIssue
at_band i [] = []
at_band i (c ∷ cs) =
    record { code = c; input_indices = i ∷ []; start_min = none; end_min = none } ∷ at_band i cs

-- `normalized.append(…)`: an overnight band is cut at midnight.
abbrev pub pieces : {P : Type 0} → ℕ → Band P → List (Span P)
pieces i b =
    let first = pos_part b.start_min in
    let last = pos_part b.end_min in
    if ltb first last
    then record { start = first; stop = last; payload = b.payload; index = i } ∷ []
    else record { start = first; stop = 1440; payload = b.payload; index = i }
      ∷ (if ltb 0 last
          then record { start = 0; stop = last; payload = b.payload; index = i } ∷ []
          else [])

abbrev pub boundaries : {P : Type 0} → List (Span P) → List ℕ
boundaries [] = 0 ∷ 1440 ∷ []
boundaries (s ∷ ss) = put_point s.start (put_point s.stop (boundaries ss))

abbrev pub covers : {P : Type 0} → ℕ → Span P → Bool
covers m s = leb s.start m && ltb m s.stop

-- `sorted` of numbers.
abbrev pub put_index : ℕ → List ℕ → List ℕ
put_index p [] = p ∷ []
put_index p (q ∷ qs) = if leb p q then p ∷ q ∷ qs else q ∷ put_index p qs

abbrev pub owners : {P : Type 0} → ℕ → List (Span P) → List ℕ
owners m [] = []
owners m (s ∷ ss) = if covers m s then put_index s.index (owners m ss) else owners m ss

abbrev pub same_list : List ℕ → List ℕ → Bool
same_list [] [] = true
same_list (x ∷ xs) (y ∷ ys) = x == y && same_list xs ys
same_list _ _ = false

abbrev pub ends_at : Option ℕ → ℕ → Bool
ends_at none m = false
ends_at (some e) m = e == m

abbrev pub or_zero : Option ℕ → ℕ
or_zero none = 0
or_zero (some m) = m

abbrev pub spot : Code → List ℕ → ℕ → ℕ → BandIssue
spot c is start stop = record {
  code = c;
  input_indices = is;
  start_min = some start;
  end_min = some stop;
}

-- The issue of one interval, merged with the last one where the same bands are involved. The last
-- issue stands first.
abbrev pub add_issue : Code → List ℕ → ℕ → ℕ → List BandIssue → List BandIssue
add_issue c is start stop [] = spot c is start stop ∷ []
add_issue c is start stop (last ∷ issues) =
    if (if is_gap c then is_gap last.code else not (is_gap last.code))
      && same_list last.input_indices is
      && ends_at last.end_min start
    then spot c is (or_zero last.start_min) stop ∷ issues
    else spot c is start stop ∷ last ∷ issues

abbrev pub code_of : List ℕ → Code
code_of [] = gap
code_of (i ∷ is) = overlap

-- The loop over `pairwise(boundaries)`.
unfoldable pub scan : {P : Type 0} → List (Span P) → List ℕ → List BandIssue → List BandIssue
scan ss [] issues = issues
scan ss (start ∷ []) issues = issues
scan ss (start ∷ stop ∷ rest) issues =
    let here = owners start ss in
    scan ss (stop ∷ rest)
      (if length here == 1 then issues else add_issue (code_of here) here start stop issues)

-- `sorted(normalized, key=start_min)`: equal keys keep their order.
abbrev pub put_span : {P : Type 0} → Span P → List (Span P) → List (Span P)
put_span s [] = s ∷ []
put_span s (t ∷ ts) = if leb s.start t.start then s ∷ t ∷ ts else t ∷ put_span s ts

abbrev pub sort_spans : {P : Type 0} → List (Span P) → List (Span P)
sort_spans [] = []
sort_spans (s ∷ ss) = put_span s (sort_spans ss)

abbrev pub or_issues : {A : Type 0} → List BandIssue → A → Checked A
or_issues [] a = valid_bands a
or_issues (i ∷ is) a = bands_error (i ∷ is)

abbrev pub reversed : List BandIssue → List BandIssue → List BandIssue
reversed [] acc = acc
reversed (i ∷ is) acc = reversed is (i ∷ acc)

module _ {P : Type 0} (payload_codes : P → List Code) where
  abbrev pub codes_of : Band P → List Code
  codes_of b =
      if bad_time b then invalid_time ∷ payload_codes b.payload else payload_codes b.payload

  -- The issues of the bands on their own, numbered from `i`.
  unfoldable pub band_issues : ℕ → List (Band P) → List BandIssue
  band_issues i [] = []
  band_issues i (b ∷ bs) = at_band i (codes_of b) ++ band_issues (suc i) bs

  -- `normalized`
  unfoldable pub normalized : ℕ → List (Band P) → List (Span P)
  normalized i [] = []
  normalized i (b ∷ bs) =
      (if is_empty (codes_of b) then pieces i b else []) ++ normalized (suc i) bs

  unfoldable pub day_of : List (Span P) → Checked (List (Span P))
  day_of ss = or_issues (reversed (scan ss (boundaries ss) []) []) (sort_spans ss)

  unfoldable pub check_bands : List (Band P) → Checked (List (Span P))
  check_bands bands =
      let issues = band_issues 0 bands in
      if is_empty issues then day_of (normalized 0 bands) else bands_error issues

-- A price and a label.
pub record Rate : Type 0 where
  pub energy_rate_vnd_per_kwh : ℤ
  pub label : Text

abbrev pub rate_codes : Rate → List Code
rate_codes r =
    (if leb_ℤ (pos 0) r.energy_rate_vnd_per_kwh
        && leb_ℤ r.energy_rate_vnd_per_kwh (pos (2 ^ 63 - 1))
      then []
      else invalid_rate ∷ [])
    ++ (if ltb 100 (length r.label) then invalid_label ∷ [] else [])

unfoldable pub kiem_khung_gio : List (Band Rate) → Checked (List (Span Rate))
kiem_khung_gio = check_bands rate_codes

abbrev pub limit_codes : ℤ → List Code
limit_codes w =
    if ltb_ℤ (pos 0) w && leb_ℤ w (pos (2 ^ 63 - 1)) then [] else invalid_power_limit ∷ []

unfoldable pub kiem_khung_gio_cong_suat : List (Band ℤ) → Checked (List (Span ℤ))
kiem_khung_gio_cong_suat = check_bands limit_codes
