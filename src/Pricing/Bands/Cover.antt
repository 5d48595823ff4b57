-- ===== src/Pricing/Bands/Cover.antt =====
-- The scan of a day's intervals (modules/pricing/bands.py) finds nothing exactly when each minute has one band.
use ttcs_t926_k8s4_n1_csms.Base.{
  ℕ, suc, ◌≤◌, ◌<◌, ◌≡◌, ◌⊎◌, inl, inr, refl, sym, ap, ◌∙◌, Bool, true, false, ◌||◌, List, [], ◌∷◌,
  All, length, is_empty, ltb, ◌==◌, if◌then◌else◌, arith,
}
use ttcs_t926_k8s4_n1_csms.Pricing.Bands.{
  Span, BandIssue, covers, put_index, owners, add_issue, code_of, scan,
}
use ttcs_t926_k8s4_n1_csms.Pricing.Bands.Points.{Ascends, has, least}

-- What the spans say at a minute.
abbrev pub at_minute : {P : Type 0} → ℕ → List (Span P) → List P
at_minute m [] = []
at_minute m (s ∷ ss) = if covers m s then s.payload ∷ at_minute m ss else at_minute m ss

length-put_index : (i : ℕ) (l : List ℕ) → length (put_index i l) ≡ suc (length l)
length-put_index i [] = refl
length-put_index i (x ∷ xs) = ground (arith, length-put_index i xs)

length-owners :
    {P : Type 0} (m : ℕ) (ss : List (Span P)) → length (owners m ss) ≡ length (at_minute m ss)
length-owners m [] = refl
length-owners m (s ∷ ss) =
    ground (arith, length-owners m ss, length-put_index s.index (owners m ss))

scan-keeps :
    {P : Type 0} (ss : List (Span P)) (l : List ℕ) (issues : List BandIssue)
    → is_empty issues ≡ false
    → is_empty (scan ss l issues) ≡ false
unfolding scan
scan-keeps ss [] issues h = h
scan-keeps ss (x ∷ []) issues h = h
scan-keeps ss (x ∷ y ∷ r) issues h =
    scan-keeps ss (y ∷ r) _ (kept (length (owners x ss) == 1) issues h)
  where
    kept :
        (c : Bool) (is : List BandIssue)
        → is_empty is ≡ false
        → is_empty (if c then is else add_issue (code_of (owners x ss)) (owners x ss) x y is)
          ≡ false
    kept true is h = h
    kept false [] h = cc
    kept false (i ∷ is) h = ground arith

-- The end of a span is at most `b` or one of the later points.
abbrev pub Past : {P : Type 0} → ℕ → List ℕ → Span P → Type 0
Past b rest s =
    ((s.start ≤ b) ⊎ (has s.start rest ≡ true)) × ((s.stop ≤ b) ⊎ (has s.stop rest ≡ true))

Past-next :
    {P : Type 0} (b y : ℕ) (r : List ℕ) (ss : List (Span P))
    → b < y
    → All (Past b (y ∷ r)) ss
    → All (Past y r) ss
Past-next b y r [] l a = tt
Past-next b y r (s ∷ ss) l ((p, q), a) = ((next s.start p, next s.stop q), Past-next b y r ss l a)
  where
    next : (e : ℕ) → (e ≤ b) ⊎ (has e (y ∷ r) ≡ true) → (e ≤ y) ⊎ (has e r ≡ true)
    next e (inl h) = inl (omega arith)
    next e (inr h) = go (e == y) refl h
      where
        go : (c : Bool) → (e == y) ≡ c → (c || has e r) ≡ true → (e ≤ y) ⊎ (has e r ≡ true)
        go true q h = inl (ground arith)
        go false q h = inr h

-- No band begins or ends inside an interval, so all its minutes are alike.
alike :
    {P : Type 0} (b m y : ℕ) (r : List ℕ) (ss : List (Span P))
    → Ascends b (y ∷ r)
    → b ≤ m
    → m < y
    → All (Past b (y ∷ r)) ss
    → at_minute m ss ≡ at_minute b ss
alike b m y r [] up l u a = refl
alike {P = P} b m y r (s ∷ ss) up l u ((p, q), a) =
    cc (same s (far s.start p) (far s.stop q), alike b m y r ss up l u a)
  where
    far : (e : ℕ) → (e ≤ b) ⊎ (has e (y ∷ r) ≡ true) → (e ≤ b) ⊎ (y ≤ e)
    far e (inl h) = inl h
    far e (inr h) = inr (ground (arith, least y e r up.1))

    same :
        (s : Span P)
        → (s.start ≤ b) ⊎ (y ≤ s.start)
        → (s.stop ≤ b) ⊎ (y ≤ s.stop)
        → covers m s ≡ covers b s
    same s p q = ground arith

-- A scan that finds nothing: each minute from the first point on has one band.
pub scan_once :
    {P : Type 0} (ss : List (Span P)) (b : ℕ) (rest : List ℕ) (m : ℕ)
    → Ascends b rest
    → All (Past b rest) ss
    → has 1440 (b ∷ rest) ≡ true
    → is_empty (scan ss (b ∷ rest) []) ≡ true
    → b ≤ m
    → m < 1440
    → length (at_minute m ss) ≡ 1
unfolding scan
scan_once ss b [] m up a e h l u = ground arith
scan_once ss b (y ∷ r) m up a e h l u =
    go (λ k z. scan_once ss y r m up.1 (Past-next b y r ss up.0 a) (ground arith) z k u)
      (length (owners b ss) == 1) refl (ltb m y) refl h
  where
    go :
        (y ≤ m → is_empty (scan ss (y ∷ r) []) ≡ true → length (at_minute m ss) ≡ 1)
        → (c : Bool) → (length (owners b ss) == 1) ≡ c
        → (d : Bool) → ltb m y ≡ d
        → is_empty (
            scan ss
              (y ∷ r)
              (if c then [] else add_issue (code_of (owners b ss)) (owners b ss) b y []))
          ≡ true
        → length (at_minute m ss) ≡ 1
    go later true q true k h =
        ap length (alike b m y r ss up l (ground arith) a) ∙ sym (length-owners b ss) ∙ ground arith
    go later true q false k h = later (ground arith) h
    go later false q d k h =
        cc (scan-keeps ss (y ∷ r) (add_issue (code_of (owners b ss)) (owners b ss) b y []) refl)

-- Where each minute has one band the scan finds nothing.
pub scan_none :
    {P : Type 0} (ss : List (Span P)) (b : ℕ) (rest : List ℕ)
    → Ascends b rest
    → All (λ x. x ≤ 1440) rest
    → ((m : ℕ) → m < 1440 → length (at_minute m ss) ≡ 1)
    → scan ss (b ∷ rest) [] ≡ []
unfolding scan
scan_none ss b [] up le one = refl
scan_none ss b (y ∷ r) up le one =
    let once : length (owners b ss) ≡ 1 = length-owners b ss ∙ one b (omega arith) in
    rw once (scan_none ss y r up.1 le.1 one)
