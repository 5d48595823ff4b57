-- ===== src/Billing/Segmentation/Line.antt =====
-- The line between two readings in `interpolate_meter_value` (modules/billing/segmentation.py): it stays
-- between them and does not fall.
use native.Mathlib.Nat.{mul-le-mul_left}
use ttcs_t926_k8s4_n1_csms.Base.{
  ℕ, suc, ◌+◌, ◌-◌, ◌*◌, ◌≤◌, ◌<◌, ◌≡◌, refl, sym, subst, Bool, true, false, if◌then◌else◌, arith,
}
use ttcs_t926_k8s4_n1_csms.Base.Int.{ℤ, pos, negsuc, ◌+ℤ◌, ◌-ℤ◌, ◌*ℤ◌, ◌≤ℤ◌, ltb_ℤ}
use ttcs_t926_k8s4_n1_csms.Base.Result.{Result, ok}
use ttcs_t926_k8s4_n1_csms.Billing.Money.{round_half}
use ttcs_t926_k8s4_n1_csms.Billing.Money.Rounding.{round_half_bounds}
use ttcs_t926_k8s4_n1_csms.Billing.Segmentation.Interpolation.{
  SegmentError, MeterValue, wh, min_ℤ, max_ℤ, rounded_wh, between,
}

round_half_mono : (n m d : ℕ) → 0 < d → n ≤ m → round_half n d ≤ round_half m d
round_half_mono n m d h k =
    let a = round_half_bounds n d h in
    let b = round_half_bounds m d h in
    grind (
      arith,
      a.0,
      b.1,
      λ (p : suc (round_half m d) ≤ round_half n d).
          mul-le-mul_left {m = suc (round_half m d)} {n = round_half n d} (2 * d) p,
    )

mul_pos : (a b : ℕ) → pos a *ℤ pos b ≡ pos (a * b)
unfolding ◌*ℤ◌
mul_pos a b = ground arith

sub_pos : (a b : ℕ) → b ≤ a → pos a -ℤ pos b ≡ pos (a - b)
unfolding ◌-ℤ◌
sub_pos a b h = ground arith

add_pos : (a b : ℕ) → pos a +ℤ pos b ≡ pos (a + b)
unfolding ◌+ℤ◌
add_pos a b = ground arith

line_pos :
    (x y duration elapsed : ℕ)
    → x ≤ y
    → pos x *ℤ pos duration +ℤ (pos y -ℤ pos x) *ℤ pos elapsed
      ≡ pos (x * duration + (y - x) * elapsed)
line_pos x y d l h =
    rw (sub_pos y x h, mul_pos x d, mul_pos (y - x) l, add_pos (x * d) ((y - x) * l)) refl

rounded_wh-pos : (n d : ℕ) → rounded_wh (pos n) d ≡ pos (round_half n d * wh)
unfolding rounded_wh
rounded_wh-pos n d = ground arith

rounded_wh_mono : (n m d : ℕ) → 0 < d → n ≤ m → rounded_wh (pos n) d ≤ℤ rounded_wh (pos m) d
rounded_wh_mono n m d h k =
    rw (rounded_wh-pos n d, rounded_wh-pos m d) (omega (arith, round_half_mono n m d h k))

clamp_mono : (a b v w : ℤ) → a ≤ℤ b → v ≤ℤ w → min_ℤ b (max_ℤ a v) ≤ℤ min_ℤ b (max_ℤ a w)
clamp_mono a b v w h k = ground arith

clamp_bounds : (a b v : ℤ) → a ≤ℤ b → (a ≤ℤ min_ℤ b (max_ℤ a v)) × (min_ℤ b (max_ℤ a v) ≤ℤ b)
clamp_bounds a b v h = (ground arith, ground arith)

pub ok_value :
    {v w : ℤ} {i j : Bool}
    → ◌≡◌ {A = Result SegmentError (ℤ × Bool)} (ok (v, i)) (ok (w, j))
    → v ≡ w
ok_value k = cc

pub ≤ℤ_trans : (a b c : ℤ) → a ≤ℤ b → b ≤ℤ c → a ≤ℤ c
≤ℤ_trans a b c h k = omega arith

-- What `between` returns where the readings do not fall.
pub line_value : ℕ → MeterValue → MeterValue → ℤ
line_value t a b =
    let duration = b.timestamp - a.timestamp in
    let elapsed = t - a.timestamp in
    let x = a.energy_wh *ℤ pos duration +ℤ (b.energy_wh -ℤ a.energy_wh) *ℤ pos elapsed in
    min_ℤ b.energy_wh (max_ℤ a.energy_wh (rounded_wh x (duration * wh)))

pub between-ok :
    (t : ℕ) (a b : MeterValue) {v : ℤ} {i : Bool}
    → a.energy_wh ≤ℤ b.energy_wh
    → between t a b ≡ ok (v, i)
    → v ≡ line_value t a b
unfolding between line_value
between-ok t a b h k =
    let e : ltb_ℤ b.energy_wh a.energy_wh ≡ false = ground arith in
    ok_value (if_false (ltb_ℤ b.energy_wh a.energy_wh) _ _ e k)
  where
    if_false :
        {A : Type 0} (c : Bool) (x y : A) {z : A} → c ≡ false → (if c then x else y) ≡ z → z ≡ y
    if_false true x y e k = cc
    if_false false x y e k = sym k

pub between-run :
    (t : ℕ) (a b : MeterValue)
    → a.energy_wh ≤ℤ b.energy_wh
    → between t a b ≡ ok (line_value t a b, true)
unfolding between line_value
between-run t a b h = let e : ltb_ℤ b.energy_wh a.energy_wh ≡ false = ground arith in rw e refl

pub line_value_bounds :
    (t : ℕ) (a b : MeterValue)
    → a.energy_wh ≤ℤ b.energy_wh
    → (a.energy_wh ≤ℤ line_value t a b) × (line_value t a b ≤ℤ b.energy_wh)
unfolding line_value
line_value_bounds t a b h = clamp_bounds a.energy_wh b.energy_wh _ h

from_zero : (e : ℤ) → pos 0 ≤ℤ e → (x : ℕ) × (e ≡ pos x)
from_zero (pos x) h = (x, refl)
from_zero (negsuc x) h = absurd (omega arith)

pub line_value_mono :
    (t u : ℕ) (a b : MeterValue)
    → pos 0 ≤ℤ a.energy_wh
    → a.energy_wh ≤ℤ b.energy_wh
    → a.timestamp < b.timestamp
    → t ≤ u
    → line_value t a b ≤ℤ line_value u a b
unfolding line_value
line_value_mono t u a b z h l k =
    let (x, e) = from_zero a.energy_wh z in
    let (y, f) = from_zero b.energy_wh (omega arith) in
    let d = b.timestamp - a.timestamp in
    let m = mul-le-mul_left {m = t - a.timestamp} {n = u - a.timestamp} (y - x) (omega arith) in
    let apart : pos x ≤ℤ pos y = subst (λ w. w ≤ℤ pos y) e (subst (λ w. a.energy_wh ≤ℤ w) f h) in
    let less : x ≤ y = omega arith in
    clamp_mono a.energy_wh b.energy_wh _ _ h (
      rw (e, f, line_pos x y d (t - a.timestamp) less, line_pos x y d (u - a.timestamp) less)
        (rounded_wh_mono _ _ (d * wh) (omega arith) (omega (arith, m))))
