-- ===== src/Pricing/Bands/Points.antt =====
-- The boundaries of a day's bands (modules/pricing/bands.py) are in order and hold every end of a band.
use ttcs_t926_k8s4_n1_csms.Base.{
  ℕ, zero, suc, ◌≤◌, ◌<◌, ◌≡◌, refl, ap, ◌∙◌, Bool, true, false, List, [], ◌∷◌, All, ltb, ◌==◌,
  if◌then◌else◌, arith,
}
pub use ttcs_t926_k8s4_n1_csms.Base.Sorted.{
  Ascends, Ascends-put_point, has, has-put_point_self, has-put_point, least,
}
use ttcs_t926_k8s4_n1_csms.Pricing.Bands.{Span, put_point, boundaries}

-- The points after zero, up to the end of the day.
pub record Points (rest : List ℕ) : Type 0 where
  pub ascends : Ascends 0 rest
  pub bounded : All (λ x. x ≤ 1440) rest
  pub ends : has 1440 rest ≡ true

put_point-bounded :
    (p : ℕ) (l : List ℕ) → p ≤ 1440 → All (λ x. x ≤ 1440) l → All (λ x. x ≤ 1440) (put_point p l)
put_point-bounded p [] h a = (h, tt)
put_point-bounded p (x ∷ xs) h (b, a) = go (put_point-bounded p xs h a) (ltb p x) (p == x)
  where
    go :
        All (λ y. y ≤ 1440) (put_point p xs)
        → (c d : Bool)
        → All (λ y. y ≤ 1440) (if c then p ∷ x ∷ xs else if d then x ∷ xs else x ∷ put_point p xs)
    go ih true d = (h, (b, a))
    go ih false true = (b, a)
    go ih false false = (b, ih)

-- A new point, put among those of `0 ∷ rest`.
record Inserted (p : ℕ) (rest : List ℕ) : Type 0 where
  after : List ℕ
  is : put_point p (0 ∷ rest) ≡ 0 ∷ after
  points : Points after
  here : has p (0 ∷ after) ≡ true
  there : (e : ℕ) → has e (0 ∷ rest) ≡ true → has e (0 ∷ after) ≡ true

Inserted-put_point : (p : ℕ) (rest : List ℕ) → p ≤ 1440 → Points rest → Inserted p rest
Inserted-put_point zero rest h q = record {
  after = rest;
  is = refl;
  points = q;
  here = refl;
  there = λ e k. k;
}
Inserted-put_point (suc p) rest h q = record {
  after = put_point (suc p) rest;
  is = ground arith;
  points = record {
    ascends = Ascends-put_point 0 (suc p) rest (omega arith) q.ascends;
    bounded = put_point-bounded (suc p) rest h q.bounded;
    ends = has-put_point 1440 (suc p) rest q.ends;
  };
  here = ground (arith, has-put_point_self (suc p) rest);
  there = λ e k. ground (arith, has-put_point e (suc p) rest);
}

-- A span within the day.
abbrev pub InDay : {P : Type 0} → Span P → Type 0
InDay s = (s.start < s.stop) × (s.stop ≤ 1440)

abbrev pub Marked : {P : Type 0} → List ℕ → Span P → Type 0
Marked l s = (has s.start l ≡ true) × (has s.stop l ≡ true)

All-Marked :
    {P : Type 0} (l k : List ℕ) (ss : List (Span P))
    → ((e : ℕ) → has e l ≡ true → has e k ≡ true)
    → All (Marked l) ss
    → All (Marked k) ss
All-Marked l k [] f a = tt
All-Marked l k (s ∷ ss) f ((b, c), a) = ((f s.start b, f s.stop c), All-Marked l k ss f a)

pub record Grid {P : Type 0} (ss : List (Span P)) : Type 0 where
  pub rest : List ℕ
  pub is : boundaries ss ≡ 0 ∷ rest
  pub points : Points rest
  pub marked : All (Marked (0 ∷ rest)) ss

pub boundaries-Grid : {P : Type 0} (ss : List (Span P)) → All InDay ss → Grid ss
boundaries-Grid [] a = record {
  rest = 1440 ∷ [];
  is = refl;
  points = record { ascends = (omega arith, tt); bounded = (omega arith, tt); ends = refl };
  marked = tt;
}
boundaries-Grid (s ∷ ss) ((l, u), a) =
    let g = boundaries-Grid ss a in
    let q = Inserted-put_point s.stop g.rest u g.points in
    let r = Inserted-put_point s.start q.after (omega arith) q.points in
    record {
      rest = r.after;
      is =
          ap (λ x. put_point s.start (put_point s.stop x)) g.is
          ∙ ap (put_point s.start) q.is
          ∙ r.is;
      points = r.points;
      marked = (
        (r.here, r.there s.stop q.here),
        All-Marked (0 ∷ g.rest) (0 ∷ r.after) ss (λ e k. r.there e (q.there e k)) g.marked,
      );
    }
