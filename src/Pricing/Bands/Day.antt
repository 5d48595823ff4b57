-- ===== src/Pricing/Bands/Day.antt =====
-- The cut of bands at midnight and their order (modules/pricing/bands.py) keep what they say.
use ttcs_t926_k8s4_n1_csms.Base.{
  ℕ, zero, suc, ◌≤◌, ◌<◌, ◌≡◌, ◌⊎◌, inl, inr, refl, sym, ap, subst, ◌∙◌, Bool, true, false, ◌&&◌,
  ◌||◌, List, [], ◌∷◌, ◌++◌, All, length, is_empty, leb, ltb, if◌then◌else◌, arith,
}
use ttcs_t926_k8s4_n1_csms.Base.Int.{pos_part}
use ttcs_t926_k8s4_n1_csms.Pricing.Bands.{
  Code, invalid_time, Band, Span, BandIssue, valid_bands, bad_time, at_band, pieces, covers, scan,
  boundaries, put_span, sort_spans, or_issues, reversed, codes_of, band_issues, normalized,
}
use ttcs_t926_k8s4_n1_csms.Pricing.Bands.Points.{has, InDay, Marked, boundaries-Grid}
use ttcs_t926_k8s4_n1_csms.Pricing.Bands.Cover.{at_minute, Past, scan_once}

-- What a band covers as it was entered: over midnight where it ends before it begins.
abbrev pub in_band : {P : Type 0} → ℕ → Band P → Bool
in_band m b =
    let first = pos_part b.start_min in
    let last = pos_part b.end_min in
    if ltb first last then leb first m && ltb m last else leb first m || ltb m last

-- What the bands say at a minute, as they were entered.
abbrev pub band_at : {P : Type 0} → ℕ → List (Band P) → List P
band_at m [] = []
band_at m (b ∷ bs) = if in_band m b then b.payload ∷ band_at m bs else band_at m bs

at_minute-append :
    {P : Type 0} (m : ℕ) (a b : List (Span P))
    → at_minute m (a ++ b) ≡ at_minute m a ++ at_minute m b
at_minute-append m [] b = refl
at_minute-append m (s ∷ ss) b = ground (arith, at_minute-append m ss b)

at_minute-pieces :
    {P : Type 0} (m i : ℕ) (b : Band P)
    → bad_time b ≡ false
    → m < 1440
    → at_minute m (pieces i b) ≡ (if in_band m b then b.payload ∷ [] else [])
at_minute-pieces m i b h l = ground arith

pieces-InDay : {P : Type 0} (i : ℕ) (b : Band P) → bad_time b ≡ false → All InDay (pieces i b)
pieces-InDay {P = P} i b h =
    go (ltb (pos_part b.start_min) (pos_part b.end_min)) refl (ltb 0 (pos_part b.end_min)) refl
  where
    go :
        (c : Bool)
        → ltb (pos_part b.start_min) (pos_part b.end_min) ≡ c
        → (d : Bool) → ltb 0 (pos_part b.end_min) ≡ d
        → let first = pos_part b.start_min in
          let last = pos_part b.end_min in
          let head : Span P = record {
            start = first;
            stop = 1440;
            payload = b.payload;
            index = i;
          } in
          let tail : Span P = record { start = 0; stop = last; payload = b.payload; index = i } in
          let whole : Span P = record {
            start = first;
            stop = last;
            payload = b.payload;
            index = i;
          } in
          All InDay (if c then whole ∷ [] else head ∷ (if d then tail ∷ [] else []))
    go true e d f = ((ground arith, ground arith), tt)
    go false e true f = ((ground arith, omega arith), ((ground arith, ground arith), tt))
    go false e false f = ((ground arith, omega arith), tt)

-- Putting a span in its place does not change what a minute with one band says.
at_minute-put_span :
    {P : Type 0} (m : ℕ) (s : Span P) (ss : List (Span P))
    → length (at_minute m (s ∷ ss)) ≤ 1
    → at_minute m (put_span s ss) ≡ at_minute m (s ∷ ss)
at_minute-put_span m s [] h = refl
at_minute-put_span m s (t ∷ ts) h = ground (arith, at_minute-put_span m s ts)

pub at_minute-sort_spans :
    {P : Type 0} (m : ℕ) (ss : List (Span P))
    → length (at_minute m ss) ≤ 1
    → at_minute m (sort_spans ss) ≡ at_minute m ss
at_minute-sort_spans m [] h = refl
at_minute-sort_spans {P = P} m (s ∷ ss) h =
    let ih = at_minute-sort_spans m ss (ground arith) in
    let k = ap (λ (x : List P). if covers m s then s.payload ∷ x else x) ih in
    at_minute-put_span m s (sort_spans ss) (subst (λ (x : List P). length x ≤ 1) (sym k) h) ∙ k

pub is_empty-reversed :
    (is acc : List BandIssue) → is_empty (reversed is acc) ≡ (is_empty is && is_empty acc)
is_empty-reversed [] acc = refl
is_empty-reversed (i ∷ is) acc = is_empty-reversed is (i ∷ acc) ∙ ground arith

empty-append :
    (i : ℕ) (cs : List Code) (is : List BandIssue)
    → is_empty (at_band i cs ++ is) ≡ true
    → (is_empty cs ≡ true) × (is_empty is ≡ true)
empty-append i [] is h = (refl, h)
empty-append i (c ∷ cs) is h = cc

one_more :
    {P : Type 0} (c : Bool) (p : P) {xs ys : List P}
    → xs ≡ ys
    → (if c then p ∷ [] else []) ++ xs ≡ (if c then p ∷ ys else ys)
one_more true p h = ap (λ xs. p ∷ xs) h
one_more false p h = h

All-append : {P : Type 0} (a b : List (Span P)) → All InDay a → All InDay b → All InDay (a ++ b)
All-append [] b x y = y
All-append (s ∷ ss) b (h, x) y = (h, All-append ss b x y)

past :
    {P : Type 0} (rest : List ℕ) (ss : List (Span P))
    → All (Marked (0 ∷ rest)) ss
    → All (Past 0 rest) ss
past rest [] a = tt
past rest (s ∷ ss) ((p, q), a) = ((next s.start p, next s.stop q), past rest ss a)
  where
    next : (e : ℕ) → has e (0 ∷ rest) ≡ true → (e ≤ 0) ⊎ (has e rest ≡ true)
    next zero h = inl (omega arith)
    next (suc e) h = inr (ground arith)

module _ {P : Type 0} (payload_codes : P → List Code) where
  timely : (b : Band P) → is_empty (codes_of payload_codes b) ≡ true → bad_time b ≡ false
  timely b h = go (bad_time b) h
    where
      go :
          (c : Bool)
          → is_empty (if c then invalid_time ∷ payload_codes b.payload else payload_codes b.payload)
            ≡ true
          → c ≡ false
      go true k = cc
      go false k = refl

  -- Bands without issues of their own keep what they say, cut at midnight.
  pub normal :
      (m i : ℕ) (bs : List (Band P))
      → is_empty (band_issues payload_codes i bs) ≡ true
      → All InDay (normalized payload_codes i bs)
        × (m < 1440 → at_minute m (normalized payload_codes i bs) ≡ band_at m bs)
  unfolding band_issues normalized
  normal m i [] h = (tt, λ l. refl)
  normal m i (b ∷ bs) h =
      let (fine, rest) =
        empty-append i (codes_of payload_codes b) (band_issues payload_codes (suc i) bs) h in
      let time = timely b fine in
      let (days, says) = normal m (suc i) bs rest in
      rw fine (
        All-append (pieces i b) (normalized payload_codes (suc i) bs) (pieces-InDay i b time) days,
        λ l.
            at_minute-append m (pieces i b) (normalized payload_codes (suc i) bs)
            ∙ ap (λ (x : List P). x ++ at_minute m (normalized payload_codes (suc i) bs))
                (at_minute-pieces m i b time l)
            ∙ one_more (in_band m b) b.payload (says l),
      )

pub day_once :
    {P : Type 0} (ss : List (Span P)) (m : ℕ)
    → All InDay ss
    → m < 1440
    → is_empty (scan ss (boundaries ss) []) ≡ true
    → length (at_minute m ss) ≡ 1
day_once ss m a l h =
    let g = boundaries-Grid ss a in
    scan_once ss 0 g.rest m g.points.ascends (past g.rest ss g.marked) g.points.ends
      (ap (λ x. is_empty (scan ss x [])) (sym g.is) ∙ h) (omega arith) l

pub single : {P : Type 0} (l : List P) → length l ≡ 1 → (p : P) × (l ≡ p ∷ [])
single [] h = cc
single (x ∷ []) h = (x, refl)
single (x ∷ y ∷ l) h = ground arith

pub and_true : (a : Bool) → (a && true) ≡ true → a ≡ true
and_true a h = ground arith

pub or_issues-valid :
    {A : Type 0} (is : List BandIssue) (a out : A)
    → or_issues is a ≡ valid_bands out
    → (is_empty is ≡ true) × (out ≡ a)
or_issues-valid [] a out h = (refl, cc)
or_issues-valid (i ∷ is) a out h = cc
