-- ===== src/Billing/Segmentation/Cuts.antt =====
-- The cut points of `chia_doan` (modules/billing/segmentation.py): they run in order from the session's
-- start to its end, and hold every midnight and every end of a frame inside it.
use ttcs_t926_k8s4_n1_csms.Base.{
  ℕ, zero, suc, ◌+◌, ◌-◌, ◌≤◌, ◌<◌, ◌≡◌, ap, subst, ◌∙◌, true, ◌&&◌, inl, inr, List, [], ◌∷◌, All,
  ltb, ◌==◌, Bool-cases, arith,
}
use ttcs_t926_k8s4_n1_csms.Base.Sorted.{
  put_point, Ascends, Ascends-put_point, has, has-put_point_self, has-put_point,
}
use ttcs_t926_k8s4_n1_csms.Base.Result.{ok, bind-ok}
use ttcs_t926_k8s4_n1_csms.Billing.Segmentation.Clock.{TariffFrame}
use ttcs_t926_k8s4_n1_csms.Billing.Segmentation.{
  Zone, add_cut, frame_span, cut_frames, cut_dates, sorted_points,
}

module _ (start end : ℕ) (ordered : start < end) where
  -- The points after the start.
  pub record Cuts (l : List ℕ) : Type 0 where
    pub rest : List ℕ
    pub is : l ≡ start ∷ rest
    pub ascends : Ascends start rest
    pub bounded : All (λ x. x ≤ end) rest
    pub ends : has end rest ≡ true

  put_point-bounded :
      (p : ℕ) (l : List ℕ) → p ≤ end → All (λ x. x ≤ end) l → All (λ x. x ≤ end) (put_point p l)
  put_point-bounded p [] h a = (h, tt)
  put_point-bounded p (x ∷ xs) h (b, a) = ground (arith, put_point-bounded p xs h a)

  put_point-first :
      (p : ℕ) (l : List ℕ) → start < p → put_point p (start ∷ l) ≡ start ∷ put_point p l
  put_point-first p l h = ground arith

  pub add_cut-Cuts : (p : ℕ) (l : List ℕ) → Cuts l → Cuts (add_cut start end p l)
  add_cut-Cuts p l c = elim (Bool-cases (ltb start p && ltb p end)) [
    | inl e ↦ rw e record {
      rest = put_point p c.rest;
      is = ap (put_point p) c.is ∙ put_point-first p c.rest (ground arith);
      ascends = Ascends-put_point start p c.rest (ground arith) c.ascends;
      bounded = put_point-bounded p c.rest (ground arith) c.bounded;
      ends = has-put_point end p c.rest c.ends;
    }
    | inr e ↦ rw e c
  ]

  pub has-add_cut : (x p : ℕ) (l : List ℕ) → has x l ≡ true → has x (add_cut start end p l) ≡ true
  has-add_cut x p l h = elim (Bool-cases (ltb start p && ltb p end)) [
    | inl e ↦ rw e (has-put_point x p l h)
    | inr e ↦ rw e h
  ]

  pub has-add_cut_self :
      (p : ℕ) (l : List ℕ) → start < p → p < end → has p (add_cut start end p l) ≡ true
  has-add_cut_self p l h k =
      let e : (ltb start p && ltb p end) ≡ true = ground arith in rw e (has-put_point_self p l)

  -- A point inside the session is among the points.
  abbrev pub Marked : List ℕ → ℕ → Type 0
  Marked l x = start < x → x < end → has x l ≡ true

  module _ (tz : Zone) where
    -- Both ends of a frame on a date are marked.
    abbrev pub FrameMarked : ℕ → List ℕ → TariffFrame → Type 0
    FrameMarked date l tf =
        (st et : ℕ) → frame_span tz date tf ≡ ok (st, et) → Marked l st × Marked l et

    pub record Cut (date : ℕ) (frames : List TariffFrame) (l l' : List ℕ) : Type 0 where
      pub cuts : Cuts l'
      pub grows : (y : ℕ) → has y l ≡ true → has y l' ≡ true
      pub marked : All (FrameMarked date l') frames

    cut_frames-Cut :
        (date : ℕ) (frames : List TariffFrame) (l : List ℕ) {l' : List ℕ}
        → cut_frames tz start end date frames l ≡ ok l'
        → Cuts l
        → Cut date frames l l'
    unfolding cut_frames
    cut_frames-Cut date [] l h c =
        let is : l ≡ _ = cc in
        subst (Cut date [] l) is record { cuts = c; grows = λ y k. k; marked = tt }
    cut_frames-Cut date (tf ∷ frames) l {l'} h c =
        let ((st, et), e, k) = bind-ok (frame_span tz date tf) _ h in
        let l₁ = add_cut start end st l in
        let l₂ = add_cut start end et l₁ in
        let r = cut_frames-Cut date frames l₂ k (add_cut-Cuts et l₁ (add_cut-Cuts st l c)) in
        record {
          cuts = r.cuts;
          grows = λ y q. r.grows y (has-add_cut y et l₁ (has-add_cut y st l q));
          marked = (
            λ st' et' e'.
                let s : st ≡ st' = cc in
                let t : et ≡ et' = cc in
                (
                  subst (Marked l') s
                      (λ a b. r.grows st (has-add_cut st et l₁ (has-add_cut_self st l a b))),
                  subst (Marked l') t (λ a b. r.grows et (has-add_cut_self et l₁ a b)),
                ),
            r.marked,
          );
        }

    -- What the points hold of one date.
    pub record DateMarked (frames : ℕ → List TariffFrame) (l : List ℕ) (date : ℕ) : Type 0 where
      pub midnight : Marked l (tz.combine date 0)
      pub frames_marked : All (FrameMarked date l) (frames date)

    All-FrameMarked :
        (date : ℕ) (tfs : List TariffFrame) (l l' : List ℕ)
        → ((y : ℕ) → has y l ≡ true → has y l' ≡ true)
        → All (FrameMarked date l) tfs
        → All (FrameMarked date l') tfs
    All-FrameMarked date [] l l' g a = tt
    All-FrameMarked date (tf ∷ tfs) l l' g (f, a) = (
      λ st et e. (λ h k. g st ((f st et e).0 h k), λ h k. g et ((f st et e).1 h k)),
      All-FrameMarked date tfs l l' g a,
    )

    pub record CutDates (frames : ℕ → List TariffFrame) (n first : ℕ) (l l' : List ℕ) : Type 0 where
      pub cuts : Cuts l'
      pub grows : (y : ℕ) → has y l ≡ true → has y l' ≡ true
      pub dates : (date : ℕ) → first ≤ date → date < first + n → DateMarked frames l' date

    pub cut_dates-CutDates :
        (frames : ℕ → List TariffFrame) (n date : ℕ) (l : List ℕ) {l' : List ℕ}
        → cut_dates tz start end frames n date l ≡ ok l'
        → Cuts l
        → CutDates frames n date l l'
    unfolding cut_dates
    cut_dates-CutDates frames zero date l {l'} h c =
        let is : l ≡ l' = cc in
        subst (CutDates frames 0 date l) is
          record { cuts = c; grows = λ y k. k; dates = λ d a b. absurd (omega arith) }
    cut_dates-CutDates frames (suc n) date l {l'} h c =
        let m = tz.combine date 0 in
        let l₁ = add_cut start end m l in
        let (l₂, e, k) = bind-ok (cut_frames tz start end date (frames date) l₁) _ h in
        let here = cut_frames-Cut date (frames date) l₁ e (add_cut-Cuts m l c) in
        let later = cut_dates-CutDates frames n (suc date) l₂ k here.cuts in
        record {
          cuts = later.cuts;
          grows = λ y q. later.grows y (here.grows y (has-add_cut y m l q));
          dates = λ d a b. elim (Bool-cases (d == date)) [
            | inl q ↦
                let is : date ≡ d = ground arith in
                subst (DateMarked frames l') is record {
                  midnight = λ u v. later.grows m (here.grows m (has-add_cut_self m l u v));
                  frames_marked = All-FrameMarked date (frames date) l₂ l' later.grows here.marked;
                }
            | inr q ↦ later.dates d (ground arith) (omega arith)
          ];
        }

    pub sorted_points-CutDates :
        (frames : ℕ → List TariffFrame) {l : List ℕ}
        → sorted_points tz start end frames ≡ ok l
        → CutDates frames
            (suc (tz.date_of end) - tz.date_of start)
            (tz.date_of start)
            (put_point end (start ∷ []))
            l
    unfolding sorted_points
    sorted_points-CutDates frames h = cut_dates-CutDates frames _ _ _ h record {
      rest = end ∷ [];
      is = ground arith;
      ascends = (ordered, tt);
      bounded = (omega arith, tt);
      ends = ground arith;
    }
