-- ===== src/Billing/IdleFee.antt =====
-- modules/billing/idle_fee.py: minutes and whole VND of connector occupation after the grace time.
-- An aware datetime is the number of microseconds of its instant since the year 1, in UTC.
pub mod Minutes
use ttcs_t926_k8s4_n1_csms.Base.{
  ℕ, ◌+◌, ◌-◌, ◌*◌, ◌/◌, Bool, ltb, if◌then◌else◌, Option, none, some,
}
use ttcs_t926_k8s4_n1_csms.Base.Int.{ℤ, pos, negsuc, ◌-ℤ◌, ◌+ℤ◌, ltb_ℤ, pos_part}

pub data Stamp : Type 0 where
  aware : ℕ → Stamp
  naive : Stamp

-- An argument that should be an `int`: one, or a value of another type.
pub data Arg : Type 0 where
  int : ℤ → Arg
  other_type : Arg

pub data IdleError : Type 0 where
  grace_type grace_negative rate_type rate_negative : IdleError
  end_naive idle_naive end_precedes_idle : IdleError

pub data IdleFee : Type 0 where
  fee : ℕ → ℕ → IdleFee
  raised : IdleError → IdleFee

abbrev pub minute_us : ℕ
minute_us = 60_000_000

-- Python's `//` with a positive divisor.
unfoldable pub floor_div : ℤ → ℕ → ℤ
floor_div (pos n) d = pos (n / d)
floor_div (negsuc n) d = negsuc (n / d)

-- `max(0, (excess_us + minute_us - 1) // minute_us)`
unfoldable pub billable : ℕ → ℕ → ℕ
unfolding floor_div ◌-ℤ◌ ◌+ℤ◌
billable elapsed grace =
    let excess_us = pos elapsed -ℤ pos (grace * minute_us) in
    pos_part (floor_div (excess_us +ℤ pos (minute_us - 1)) minute_us)

-- The part below the checks of the two numbers.
unfoldable pub fee_between : Option Stamp → Stamp → ℕ → ℕ → IdleFee
unfolding billable
fee_between idle naive grace rate = raised end_naive
fee_between none (aware end) grace rate = fee 0 0
fee_between (some naive) (aware end) grace rate = raised idle_naive
fee_between (some (aware idle)) (aware end) grace rate =
    if ltb end idle
    then raised end_precedes_idle
    else let minutes = billable (end - idle) grace in fee minutes (minutes * rate)

unfoldable pub tinh_phi_chiem_tru : Option Stamp → Stamp → Arg → Arg → IdleFee
unfolding fee_between
tinh_phi_chiem_tru idle end other_type rate = raised grace_type
tinh_phi_chiem_tru idle end (int (negsuc g)) rate = raised grace_negative
tinh_phi_chiem_tru idle end (int (pos g)) other_type = raised rate_type
tinh_phi_chiem_tru idle end (int (pos g)) (int (negsuc r)) = raised rate_negative
tinh_phi_chiem_tru idle end (int (pos g)) (int (pos r)) = fee_between idle end g r
