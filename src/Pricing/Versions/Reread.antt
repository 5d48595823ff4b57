-- ===== src/Pricing/Versions/Reread.antt =====
-- The bands that tao_bieu_gia and edit_tariff (modules/pricing) store pass the check once more when an
-- invoice reads them (_daily_tariffs, modules/billing/invoicing.py).
use ttcs_t926_k8s4_n1_csms.Base.{
  ℕ, suc, ◌≤◌, ◌<◌, ◌≡◌, refl, sym, ap, subst, ◌∙◌, Bool, true, false, List, [], ◌∷◌, ◌++◌, All,
  map, length, is_empty, ltb, leb, if◌then◌else◌, arith,
}
use ttcs_t926_k8s4_n1_csms.Base.Int.{pos_part}
use ttcs_t926_k8s4_n1_csms.Pricing.Bands.{
  Code, invalid_time, Band, Span, Rate, valid_bands, bad_time, at_band, pieces, covers, put_span,
  sort_spans, codes_of, band_issues, normalized, rate_codes, kiem_khung_gio,
}
use ttcs_t926_k8s4_n1_csms.Pricing.Bands.Points.{InDay}
use ttcs_t926_k8s4_n1_csms.Pricing.Bands.Cover.{at_minute}
use ttcs_t926_k8s4_n1_csms.Pricing.Bands.Day.{in_band, band_at, normal}
use ttcs_t926_k8s4_n1_csms.Pricing.Bands.Minutes.{
  check_bands-valid, day_of-valid, kiem_khung_gio_each_minute, kiem_khung_gio_complete,
}
use ttcs_t926_k8s4_n1_csms.Billing.Invoicing.Tariffs.{put_band, order_bands}
use ttcs_t926_k8s4_n1_csms.Pricing.Versions.{band_row}

-- A span of the day with a valid price and label.
abbrev Sound : Span Rate → Type 0
Sound s = InDay s × (is_empty (rate_codes s.payload) ≡ true)

abbrev Valued : Span Rate → Type 0
Valued s = is_empty (rate_codes s.payload) ≡ true

-- The spans stand in the order of their beginnings.
abbrev Ordered : List (Span Rate) → Type 0
Ordered [] = Unit
Ordered (s ∷ ss) = All (λ (t : Span Rate). s.start ≤ t.start) ss × Ordered ss

All-put_span :
    (P : Span Rate → Type 0) (s : Span Rate) (ss : List (Span Rate))
    → P s
    → All P ss
    → All P (put_span s ss)
All-put_span P s [] p a = (p, tt)
All-put_span P s (t ∷ ts) p (q, a) = go (leb s.start t.start) (All-put_span P s ts p a)
  where
    go : (b : Bool) → All P (put_span s ts) → All P (if b then s ∷ t ∷ ts else t ∷ put_span s ts)
    go true k = (p, (q, a))
    go false k = (q, k)

All-sort_spans : (P : Span Rate → Type 0) (ss : List (Span Rate)) → All P ss → All P (sort_spans ss)
All-sort_spans P [] a = tt
All-sort_spans P (s ∷ ss) (p, a) = All-put_span P s (sort_spans ss) p (All-sort_spans P ss a)

All-later :
    (a b : ℕ) (ss : List (Span Rate))
    → a ≤ b
    → All (λ (t : Span Rate). b ≤ t.start) ss
    → All (λ (t : Span Rate). a ≤ t.start) ss
All-later a b [] h k = tt
All-later a b (t ∷ ts) h (l, k) = (omega arith, All-later a b ts h k)

put_span-Ordered : (s : Span Rate) (ss : List (Span Rate)) → Ordered ss → Ordered (put_span s ss)
put_span-Ordered s [] o = (tt, tt)
put_span-Ordered s (t ∷ ts) (a, o) = go (leb s.start t.start) refl (put_span-Ordered s ts o)
  where
    go :
        (b : Bool)
        → leb s.start t.start ≡ b
        → Ordered (put_span s ts)
        → Ordered (if b then s ∷ t ∷ ts else t ∷ put_span s ts)
    go true e k =
        let first : s.start ≤ t.start = ground arith in
        ((first, All-later s.start t.start ts first a), (a, o))
    go false e k =
        let first : t.start ≤ s.start = ground arith in
        (All-put_span (λ (u : Span Rate). t.start ≤ u.start) s ts first a, k)

sort_spans-Ordered : (ss : List (Span Rate)) → Ordered (sort_spans ss)
sort_spans-Ordered [] = tt
sort_spans-Ordered (s ∷ ss) = put_span-Ordered s (sort_spans ss) (sort_spans-Ordered ss)

-- Rows in the order of their beginnings are not moved.
order_bands-Ordered :
    (ss : List (Span Rate)) → Ordered ss → order_bands (map band_row ss) ≡ map band_row ss
order_bands-Ordered [] o = refl
order_bands-Ordered (s ∷ ss) (a, o) =
    ap (put_band (band_row s)) (order_bands-Ordered ss o) ∙ first ss a
  where
    first :
        (ts : List (Span Rate))
        → All (λ (t : Span Rate). s.start ≤ t.start) ts
        → put_band (band_row s) (map band_row ts) ≡ band_row s ∷ map band_row ts
    first [] k = refl
    first (t ∷ ts) (k, _) = ground arith

no_codes : (cs : List Code) → is_empty cs ≡ true → cs ≡ []
no_codes [] h = refl
no_codes (c ∷ cs) h = cc

codes_of-valued :
    (b : Band Rate)
    → is_empty (codes_of rate_codes b) ≡ true
    → is_empty (rate_codes b.payload) ≡ true
codes_of-valued b h = go (bad_time b) h
  where
    go :
        (c : Bool)
        → is_empty (if c then invalid_time ∷ rate_codes b.payload else rate_codes b.payload) ≡ true
        → is_empty (rate_codes b.payload) ≡ true
    go true k = cc
    go false k = k

All-Valued-append : (a b : List (Span Rate)) → All Valued a → All Valued b → All Valued (a ++ b)
All-Valued-append [] b x y = y
All-Valued-append (s ∷ ss) b (h, x) y = (h, All-Valued-append ss b x y)

pieces-Valued :
    (i : ℕ) (b : Band Rate) → is_empty (rate_codes b.payload) ≡ true → All Valued (pieces i b)
pieces-Valued i b h =
    go (ltb (pos_part b.start_min) (pos_part b.end_min)) (ltb 0 (pos_part b.end_min))
  where
    go :
        (c d : Bool)
        → let piece = λ (start stop : ℕ).
          let x : Span Rate = record {
            start = start;
            stop = stop;
            payload = b.payload;
            index = i;
          } in
          x in
          All Valued (
            if c
            then piece (pos_part b.start_min) (pos_part b.end_min) ∷ []
            else piece (pos_part b.start_min) 1440
              ∷ (if d then piece 0 (pos_part b.end_min) ∷ [] else []))
    go true d = (h, tt)
    go false true = (h, (h, tt))
    go false false = (h, tt)

normalized-Valued : (i : ℕ) (bs : List (Band Rate)) → All Valued (normalized rate_codes i bs)
unfolding normalized
normalized-Valued i [] = tt
normalized-Valued i (b ∷ bs) =
    go (is_empty (codes_of rate_codes b)) refl (normalized-Valued (suc i) bs)
  where
    go :
        (c : Bool)
        → is_empty (codes_of rate_codes b) ≡ c
        → All Valued (normalized rate_codes (suc i) bs)
        → All Valued ((if c then pieces i b else []) ++ normalized rate_codes (suc i) bs)
    go true e k = All-Valued-append (pieces i b) _ (pieces-Valued i b (codes_of-valued b e)) k
    go false e k = k

codes_of-row : (s : Span Rate) → Sound s → codes_of rate_codes (band_row s) ≡ []
codes_of-row s ((a, b), c) =
    let fine : bad_time (band_row s) ≡ false = ground arith in
    ap (λ t. if t then invalid_time ∷ rate_codes s.payload else rate_codes s.payload) fine
    ∙ no_codes (rate_codes s.payload) c

band_issues-rows :
    (i : ℕ) (ss : List (Span Rate))
    → All Sound ss
    → is_empty (band_issues rate_codes i (map band_row ss)) ≡ true
unfolding band_issues
band_issues-rows i [] a = refl
band_issues-rows i (s ∷ ss) (h, a) =
    ap (λ cs. is_empty (at_band i cs ++ band_issues rate_codes (suc i) (map band_row ss)))
      (codes_of-row s h)
    ∙ band_issues-rows (suc i) ss a

band_at-rows :
    (m : ℕ) (ss : List (Span Rate)) → All Sound ss → band_at m (map band_row ss) ≡ at_minute m ss
band_at-rows m [] a = refl
band_at-rows m (s ∷ ss) (((h, _), _), a) =
    let here : in_band m (band_row s) ≡ covers m s = ground arith in
    ap (λ c. if c then s.payload ∷ band_at m (map band_row ss) else band_at m (map band_row ss))
      here
    ∙ ap (λ x. if covers m s then s.payload ∷ x else x) (band_at-rows m ss a)

All-Sound : (ss : List (Span Rate)) → All InDay ss → All Valued ss → All Sound ss
All-Sound [] a b = tt
All-Sound (s ∷ ss) (h, a) (k, b) = ((h, k), All-Sound ss a b)

-- The bands that a check returned, stored as rows and read back in the order of their beginnings, pass
-- the check again, and each minute of the day has the same price and label.
pub kiem_khung_gio-rows :
    (bands : List (Band Rate)) (out : List (Span Rate))
    → kiem_khung_gio bands ≡ valid_bands out
    → (read : List (Span Rate)) × (kiem_khung_gio (order_bands (map band_row out))
        ≡ valid_bands read)
      × ((m : ℕ) → m < 1440 → at_minute m read ≡ at_minute m out)
unfolding kiem_khung_gio
kiem_khung_gio-rows bands out h =
    let ss = normalized rate_codes 0 bands in
    let (fine, day) = check_bands-valid rate_codes bands out h in
    let (_, is) = day_of-valid rate_codes bands ss out day in
    let sound : All Sound out = subst (All Sound) (sym is) (
      All-sort_spans Sound ss
        (All-Sound ss (normal rate_codes 0 0 bands fine).0 (normalized-Valued 0 bands))) in
    let ordered : Ordered out = subst Ordered (sym is) (sort_spans-Ordered ss) in
    let rows = map band_row out in
    let one : (m : ℕ) → m < 1440 → length (band_at m rows) ≡ 1 = λ m l.
      ap length (band_at-rows m out sound ∙ (kiem_khung_gio_each_minute bands out m h l).2) in
    let read = sort_spans (normalized rate_codes 0 rows) in
    let again : kiem_khung_gio rows ≡ valid_bands read =
      kiem_khung_gio_complete rows (band_issues-rows 0 out sound) one in
    (
      read,
      ap kiem_khung_gio (order_bands-Ordered out ordered) ∙ again,
      λ m l.
          let (r, entered, kept) = kiem_khung_gio_each_minute rows read m again l in
          kept ∙ sym entered ∙ band_at-rows m out sound,
    )
