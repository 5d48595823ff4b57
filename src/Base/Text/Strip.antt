-- ===== src/Base/Text/Strip.antt =====
-- Texts with no white space are their own `strip()`, such as the digits of a number.
use mathlib.Core.List.{reverse, reverse-cons, reverse-reverse}
use ttcs_t926_k8s4_n1_csms.Base.Lists.{All}
use ttcs_t926_k8s4_n1_csms.Base.Text.{Text, is_space, strip_left, strip, decimal_from, decimal}
use Prim.Native.Nat.{ℕ, zero, suc, ◌+◌, ◌/◌, ◌%◌, ◌≤◌}
use mathlib.Core.Path.{◌≡◌, refl}
use mathlib.Core.Bool.{false}
use mathlib.Core.List.{[], ◌∷◌, ◌++◌}
use native.Mathlib.Omega.{arith}

abbrev pub Plain : Text → Type 0
Plain t = All (λ c. is_space c ≡ false) t

Plain-append : (s t : Text) → Plain s → Plain t → Plain (s ++ t)
Plain-append [] t hs ht = ht
Plain-append (c ∷ s) t hs ht = (hs.0, Plain-append s t hs.1 ht)

Plain-reverse : (t : Text) → Plain t → Plain (reverse t)
Plain-reverse [] h = tt
Plain-reverse (c ∷ t) h =
    rw (reverse-cons c t) (Plain-append (reverse t) (c ∷ []) (Plain-reverse t h.1) (h.0, tt))

strip_left-Plain : (t : Text) → Plain t → strip_left t ≡ t
unfolding strip_left
strip_left-Plain [] h = refl
strip_left-Plain (c ∷ t) h = ground arith

pub strip-Plain : (t : Text) → Plain t → strip t ≡ t
unfolding strip
strip-Plain t h =
    rw (strip_left-Plain t h, strip_left-Plain (reverse t) (Plain-reverse t h)) (reverse-reverse t)

digit-not_space : (d : ℕ) → d ≤ 9 → is_space (48 + d) ≡ false
digit-not_space d h = ground arith

decimal_from-Plain : (f n : ℕ) (acc : Text) → Plain acc → Plain (decimal_from f n acc)
unfolding decimal_from
decimal_from-Plain zero n acc h = h
decimal_from-Plain (suc f) n acc h = ground (
  arith,
  decimal_from-Plain f (n / 10) ((48 + n % 10) ∷ acc) (digit-not_space (n % 10) (omega arith), h),
  λ (q : n ≤ 9). digit-not_space n q,
)

pub decimal-Plain : (n : ℕ) → Plain (decimal n)
unfolding decimal
decimal-Plain n = decimal_from-Plain (suc n) n [] tt

pub strip-decimal : (n : ℕ) → strip (decimal n) ≡ decimal n
strip-decimal n = strip-Plain (decimal n) (decimal-Plain n)
