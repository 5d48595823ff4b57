-- ===== src/Billing/Segmentation/Parts.antt =====
-- What one turn of the loop of `chia_doan` (modules/billing/segmentation.py) makes of two neighbouring
-- points and the frame that applies between them.
use ttcs_t926_k8s4_n1_csms.Base.{
  ℕ, ◌≡◌, refl, sym, ◌∙◌, ◌⊎◌, ap, subst, Bool, true, false, Option, none, some, List, inl, inr,
  arith,
}
use ttcs_t926_k8s4_n1_csms.Base.Int.{ℤ, pos, pos_part, neg_part, ◌+ℤ◌, ◌-ℤ◌, ltb_ℤ, eqb_ℤ, int_laws}
use ttcs_t926_k8s4_n1_csms.Base.Result.{ok, bind-ok, raise_if-ok}
use ttcs_t926_k8s4_n1_csms.Billing.Money.{Charge, amount, tien_dong, ratio, rate}
use ttcs_t926_k8s4_n1_csms.Billing.Segmentation.Interpolation.{MeterValue, interpolate_meter_value}
use ttcs_t926_k8s4_n1_csms.Billing.Segmentation.Clock.{TariffFrame}
use ttcs_t926_k8s4_n1_csms.Billing.Segmentation.{
  Zone, Segment, charge_amount, charge_nonzero, charge_segment,
}

abbrev pub option_energy : Option Segment → ℤ
option_energy none = pos 0
option_energy (some s) = s.energy_consumed_wh

abbrev pub segment_charge : Segment → Charge
segment_charge s = tien_dong (ratio s.energy_consumed_wh 1_000_000) (rate s.price_vnd_per_kwh)

-- A segment of a frame between two points.
pub record Of (date p q : ℕ) (tf : TariffFrame) (s : Segment) : Type 0 where
  pub dated : s.local_date ≡ date
  pub starts : s.start_time ≡ p
  pub stops : s.end_time ≡ q
  pub priced : s.price_vnd_per_kwh ≡ tf.price_vnd_per_kwh
  pub version : s.tariff_version ≡ tf.tariff_version
  pub label : s.frame_label ≡ tf.frame_label
  pub charged_as : segment_charge s ≡ amount s.amount_vnd

none-some : {s : Segment} → none ≡ some s → ⊥
none-some h = cc

some_inj : {s t : Segment} → some s ≡ some t → s ≡ t
some_inj h = cc

charge_amount-ok : (c : Charge) {a : ℤ} → charge_amount c ≡ ok a → c ≡ amount a
charge_amount-ok c h = ground arith

charge_nonzero-cases :
    (c : Bool) (s : Segment) {o : Option Segment}
    → charge_nonzero c s ≡ ok o
    → (c ≡ true) × (o ≡ none)
      ⊎ (a : ℤ) × (o ≡ some (record s { amount_vnd = a })) × (segment_charge s ≡ amount a)
charge_nonzero-cases true s h = inl (refl, cc)
charge_nonzero-cases false s {o} h =
    let (a, e, k) = bind-ok (charge_amount (segment_charge s)) _ h in
    inr (a, cc, charge_amount-ok (segment_charge s) e)

energy_none :
    (a b : ℤ) (o : Option Segment)
    → o ≡ none
    → eqb_ℤ (b -ℤ a) (pos 0) ≡ true
    → option_energy o +ℤ a ≡ b
energy_none a b o n z =
    let d : pos_part (b -ℤ a) ≡ neg_part (b -ℤ a) = ground arith in
    ap (λ x. option_energy x +ℤ a) n ∙ omega (int_laws, d)

energy_some :
    (a b : ℤ) (o : Option Segment) {s : Segment}
    → o ≡ some s
    → s.energy_consumed_wh ≡ b -ℤ a
    → option_energy o +ℤ a ≡ b
energy_some a b o {s} n e = ap (λ x. option_energy x +ℤ a) n ∙ ap (λ x. x +ℤ a) e ∙ omega int_laws

pub record Part (ms : List MeterValue) (date p q : ℕ) (tf : TariffFrame) (o : Option Segment)
    : Type 0 where
  pub first_wh : ℤ
  pub first_interp : Bool
  pub last_wh : ℤ
  pub last_interp : Bool
  pub starts : interpolate_meter_value p ms ≡ ok (first_wh, first_interp)
  pub stops : interpolate_meter_value q ms ≡ ok (last_wh, last_interp)
  pub energy : option_energy o +ℤ first_wh ≡ last_wh
  pub shape : (s : Segment) → o ≡ some s → Of date p q tf s

pub charge_segment-Part :
    (tz : Zone) (ms : List MeterValue) (tariffs : ℕ → List TariffFrame) (date p q : ℕ)
    (tf : TariffFrame) {o : Option Segment}
    → charge_segment tz ms tariffs date p q tf ≡ ok o
    → Part ms date p q tf o
unfolding charge_segment
charge_segment-Part tz ms tariffs date p q tf {o} h =
    let ((a, i), e, k) = bind-ok (interpolate_meter_value p ms) _ h in
    let ((b, j), e', k') = bind-ok (interpolate_meter_value q ms) _ k in
    let (up, k'') = raise_if-ok (ltb_ℤ (b -ℤ a) (pos 0)) _ _ k' in
    elim (charge_nonzero-cases (eqb_ℤ (b -ℤ a) (pos 0)) _ k'') [
      | inl (z, is) ↦ record {
        first_wh = a;
        first_interp = i;
        last_wh = b;
        last_interp = j;
        starts = e;
        stops = e';
        energy = energy_none a b o is z;
        shape = λ s w. absurd (none-some (sym is ∙ w));
      }
      | inr (paid, is, due) ↦ record {
        first_wh = a;
        first_interp = i;
        last_wh = b;
        last_interp = j;
        starts = e;
        stops = e';
        energy = energy_some a b o is refl;
        shape = λ s w. subst (Of date p q tf) (some_inj (sym is ∙ w)) record {
          dated = refl;
          starts = refl;
          stops = refl;
          priced = refl;
          version = refl;
          label = refl;
          charged_as = due;
        };
      }
    ]
