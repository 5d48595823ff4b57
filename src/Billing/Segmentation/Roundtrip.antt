-- ===== src/Billing/Segmentation/Roundtrip.antt =====
-- The times that `_clock` (modules/billing/invoicing.py) writes and `chia_doan`
-- (modules/billing/segmentation.py) reads back.
use ttcs_t926_k8s4_n1_csms.Base.{
  ℕ, zero, suc, ◌+◌, ◌-◌, ◌*◌, ◌/◌, ◌%◌, ◌≤◌, ◌<◌, ◌≡◌, refl, ap, ◌∙◌, true, false, ◌&&◌, [], ◌∷◌,
  ◌++◌, All, is_empty, ltb, leb, ◌==◌, if◌then◌else◌, Bool-cases, inl, inr, arith,
}
use ttcs_t926_k8s4_n1_csms.Base.Text.{Text, decimal, decimal_from}
use ttcs_t926_k8s4_n1_csms.Base.Result.{ok}
use ttcs_t926_k8s4_n1_csms.Billing.Segmentation.Clock.{
  TariffFrame, colon, put_first, split, is_digit, digits_from, int_of, int_list, clock_fields,
  second_of_day, two_digits, clock,
}
use ttcs_t926_k8s4_n1_csms.Billing.Segmentation.{Zone, end_of, frame_span}

digit_step :
    (v d : ℕ) (acc : Text) → d < 10 → digits_from v ((48 + d) ∷ acc) ≡ digits_from (v * 10 + d) acc
unfolding digits_from
digit_step v d acc h =
    let e : is_digit (48 + d) ≡ true = ground arith in
    let q : v * 10 + (48 + d - 48) ≡ v * 10 + d = omega arith in
    rw e (ap (λ x. digits_from x acc) q)

digits_from-decimal_from :
    (f n : ℕ) (acc : Text) → n < f → digits_from 0 (decimal_from f n acc) ≡ digits_from n acc
unfolding decimal_from
digits_from-decimal_from zero n acc h = absurd (omega arith)
digits_from-decimal_from (suc f) n acc h = elim (Bool-cases (ltb n 10)) [
  | inl e ↦ rw e (digit_step 0 n acc (ground arith) ∙ ap (λ x. digits_from x acc) (zero_shift n))
  | inr e ↦ rw e (
      digits_from-decimal_from f (n / 10) ((48 + n % 10) ∷ acc) (ground arith)
      ∙ digit_step (n / 10) (n % 10) acc (omega arith)
      ∙ ap (λ x. digits_from x acc) (div_mod n))
]
  where
    zero_shift : (k : ℕ) → 0 * 10 + k ≡ k
    zero_shift k = omega arith

    div_mod : (k : ℕ) → k / 10 * 10 + k % 10 ≡ k
    div_mod k = omega arith

decimal_from-nonempty : (f n c : ℕ) (acc : Text) → is_empty (decimal_from f n (c ∷ acc)) ≡ false
unfolding decimal_from
decimal_from-nonempty zero n c acc = refl
decimal_from-nonempty (suc f) n c acc =
    ground (arith, decimal_from-nonempty f (n / 10) (48 + n % 10) (c ∷ acc))

int_of-digits : (t : Text) → is_empty t ≡ false → int_of t ≡ digits_from 0 t
unfolding int_of
int_of-digits [] h = cc
int_of-digits (c ∷ t) h = refl

decimal-nonempty : (n : ℕ) → is_empty (decimal n) ≡ false
unfolding decimal decimal_from
decimal-nonempty n = ground (arith, decimal_from-nonempty n (n / 10) (48 + n % 10) [])

digits_from-decimal : (n : ℕ) → digits_from 0 (decimal n) ≡ ok n
unfolding decimal digits_from
digits_from-decimal n = digits_from-decimal_from (suc n) n [] (omega arith)

-- `int` reads back the two digits or more of a number.
int_of-two_digits : (n : ℕ) → int_of (two_digits n) ≡ ok n
int_of-two_digits n = elim (Bool-cases (ltb n 10)) [
  | inl e ↦ rw e (
      int_of-digits (48 ∷ decimal n) refl
      ∙ digit_step 0 0 (decimal n) (omega arith)
      ∙ digits_from-decimal n)
  | inr e ↦ rw e (int_of-digits (decimal n) (decimal-nonempty n) ∙ digits_from-decimal n)
]

abbrev Plain : Text → Type 0
Plain t = All (λ c. (c == colon) ≡ false) t

decimal_from-Plain : (f n : ℕ) (acc : Text) → Plain acc → Plain (decimal_from f n acc)
unfolding decimal_from
decimal_from-Plain zero n acc a = a
decimal_from-Plain (suc f) n acc a = elim (Bool-cases (ltb n 10)) [
  | inl e ↦ rw e (ground arith, a)
  | inr e ↦ rw e (decimal_from-Plain f (n / 10) ((48 + n % 10) ∷ acc) (ground arith, a))
]

decimal-Plain : (n : ℕ) → Plain (decimal n)
unfolding decimal
decimal-Plain n = decimal_from-Plain (suc n) n [] tt

two_digits-Plain : (n : ℕ) → Plain (two_digits n)
two_digits-Plain n = elim (Bool-cases (ltb n 10)) [
  | inl e ↦ rw e (refl, decimal-Plain n)
  | inr e ↦ rw e (decimal-Plain n)
]

split-join : (a b : Text) → Plain a → split (a ++ colon ∷ b) ≡ a ∷ split b
unfolding split
split-join [] b h = refl
split-join (c ∷ a) b (e, h) = rw e (ap (put_first c) (split-join a b h))

split-single : (a : Text) → Plain a → split a ≡ a ∷ []
unfolding split
split-single [] h = refl
split-single (c ∷ a) (e, h) = rw e (ap (put_first c) (split-single a h))

pub clock_fields-clock : (m : ℕ) → clock_fields (clock m) ≡ ok (m / 60, m % 60, 0)
unfolding clock_fields clock int_list
clock_fields-clock m =
    let h = two_digits (m / 60) in
    let s = two_digits (m % 60) in
    let parts : split (h ++ colon ∷ s) ≡ h ∷ s ∷ [] =
      split-join h s (two_digits-Plain (m / 60))
      ∙ ap (λ x. h ∷ x) (split-single s (two_digits-Plain (m % 60))) in
    rw parts (rw (int_of-two_digits (m / 60), int_of-two_digits (m % 60)) refl)

second_of_day-minute : (m : ℕ) → m < 1440 → second_of_day (m / 60) (m % 60) 0 ≡ ok (m * 60)
unfolding second_of_day
second_of_day-minute m h =
    let e : (leb (m / 60) 23 && (leb (m % 60) 59 && leb 0 59)) ≡ true = ground arith in
    rw e (ap ok (minutes m))
  where
    minutes : (m : ℕ) → m / 60 * 3600 + m % 60 * 60 + 0 ≡ m * 60
    minutes m = omega arith

end_of-minute :
    (tz : Zone) (date b : ℕ)
    → b ≤ 1440
    → end_of tz date (b / 60) (b % 60) 0
      ≡ ok (if b == 1440 then tz.combine (suc date) 0 else tz.combine date (b * 60))
end_of-minute tz date b h = elim (Bool-cases (b == 1440)) [
  | inl q ↦ let e : (b / 60 == 24) ≡ true = ground arith in rw (q, e) refl
  | inr q ↦
      let e : (b / 60 == 24) ≡ false = ground arith in
      rw (q, e, second_of_day-minute b (ground arith)) refl
]

-- The frame of a band from minute a to minute b of a day, with its times as _clock writes them, spans
-- from that minute of the date to the other one, and a band that ends at minute 1440 ends at the
-- next midnight.
pub frame_span-clock :
    (tz : Zone) (date a b : ℕ) (tf : TariffFrame)
    → a < 1440
    → b ≤ 1440
    → tf.start_time ≡ clock a
    → tf.end_time ≡ clock b
    → frame_span tz date tf
      ≡ ok (
        tz.combine date (a * 60),
        if b == 1440 then tz.combine (suc date) 0 else tz.combine date (b * 60),
      )
unfolding frame_span
frame_span-clock tz date a b tf h k e e' =
    rw
      (
        e,
        e',
        clock_fields-clock a,
        clock_fields-clock b,
        second_of_day-minute a h,
        end_of-minute tz date b k,
      )
      refl
