-- ===== src/Billing/Money.antt =====
-- modules/billing/money.py: exact rounding of one segment's energy charge, half up, to whole VND.
pub mod Rounding
use ttcs_t926_k8s4_n1_csms.Base.{ℕ, ◌+◌, ◌*◌, ◌/◌, ◌%◌, Bool, leb, if◌then◌else◌}
use ttcs_t926_k8s4_n1_csms.Base.Int.{ℤ, pos, neg, ◌*ℤ◌, abs, ltb_ℤ}

-- The values that a caller may pass as energy: an `int`, a finite `Decimal` by its
-- `as_integer_ratio()`, a NaN or infinite `Decimal`, and anything else (bool and float).
pub data Energy : Type 0 where
  whole : ℤ → Energy
  ratio : ℤ → ℕ → Energy
  not_finite : Energy
  other_energy : Energy

-- The values that a caller may pass as price.
pub data Price : Type 0 where
  rate : ℤ → Price
  other_price : Price

pub data Charge : Type 0 where
  amount : ℤ → Charge
  type_error value_error : Charge

-- `divmod`, then one more where twice the remainder reaches the denominator.
unfoldable pub round_half : ℕ → ℕ → ℕ
round_half n d = n / d + (if leb d (2 * (n % d)) then 1 else 0)

-- The tail of `tien_dong`, from `numerator *= price_vnd_per_kwh`.
unfoldable pub charge_ratio : ℤ → ℕ → ℤ → ℤ
charge_ratio numerator denominator price =
    let numerator' = numerator *ℤ price in
    let rounded = round_half (abs numerator') (denominator * 1000) in
    if ltb_ℤ numerator' (pos 0) then neg (pos rounded) else pos rounded

unfoldable pub tien_dong : Energy → Price → Charge
unfolding charge_ratio
tien_dong other_energy p = type_error
tien_dong (whole e) other_price = type_error
tien_dong (ratio n d) other_price = type_error
tien_dong not_finite other_price = type_error
tien_dong not_finite (rate p) = value_error
tien_dong (ratio n d) (rate p) = amount (charge_ratio n d p)
tien_dong (whole e) (rate p) = amount (charge_ratio e 1 p)
