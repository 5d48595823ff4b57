-- ===== src/Wallet/Uuid.antt =====
-- The canonical text of a UUID, `str(uuid)`, and the texts that `UUID(text)` reads back to it.
use native.Mathlib.Nat.{pow-zero, pow-succ', div-one, div-div-eq-div-mul}
use ttcs_t926_k8s4_n1_csms.Base.{
  ℕ, zero, suc, ◌+◌, ◌-◌, ◌*◌, ◌/◌, ◌%◌, ◌^◌, ◌<◌, ◌≡◌, refl, sym, ap, ◌∙◌, ◌&&◌, Option, none,
  some, [], ◌∷◌, leb, ltb, ◌==◌, if◌then◌else◌, arith,
}
use ttcs_t926_k8s4_n1_csms.Base.Text.{Text, text_eq, text_eq_refl}

abbrev pub hex_digit : ℕ → ℕ
hex_digit d = if ltb d 10 then 48 + d else 87 + d

-- The last `k` hexadecimal digits of `n`, then `rest`.
unfoldable pub hex_text : ℕ → ℕ → Text → Text
hex_text zero n rest = rest
hex_text (suc k) n rest = hex_text k (n / 16) (hex_digit (n % 16) ∷ rest)

-- The five groups of 8, 4, 4, 4 and 12 digits, joined by dashes.
unfoldable pub uuid_text : ℕ → Text
uuid_text n = hex_text 8 (n / 16 ^ 24) (
    b'-'
    ∷ hex_text 4 (n / 16 ^ 20) (
        b'-'
        ∷ hex_text 4 (n / 16 ^ 16) (b'-' ∷ hex_text 4 (n / 16 ^ 12) (b'-' ∷ hex_text 12 n []))))

abbrev digit_value : ℕ → ℕ
digit_value c = if leb 48 c && leb c 57 then c - 48 else c - 87

abbrev next_value : ℕ → ℕ → ℕ
next_value acc c = if c == b'-' then acc else acc * 16 + digit_value c

-- The number that the hexadecimal digits spell, dashes skipped.
unfoldable pub hex_value : ℕ → Text → ℕ
hex_value acc [] = acc
hex_value acc (c ∷ t) = hex_value (next_value acc c) t

-- `audit_id = UUID(text)` followed by the test `str(audit_id) != text`. Python's `UUID` reads other
-- spellings too, which that test refuses with the exception that a `ValueError` is turned into.
unfoldable pub canonical_uuid : Text → Option ℕ
canonical_uuid t = let n = hex_value 0 t in if text_eq (uuid_text n) t then some n else none

next_value-hex_digit : (n : ℕ) → next_value (n / 16) (hex_digit (n % 16)) ≡ n
next_value-hex_digit n = ground arith

hex_value-digit :
    (n : ℕ) (rest : Text) → hex_value (n / 16) (hex_digit (n % 16) ∷ rest) ≡ hex_value n rest
unfolding hex_value
hex_value-digit n rest = ap (λ a. hex_value a rest) (next_value-hex_digit n)

hex_value-dash : (acc : ℕ) (rest : Text) → hex_value acc (b'-' ∷ rest) ≡ hex_value acc rest
unfolding hex_value
hex_value-dash acc rest = refl

div-pow-suc : (n k : ℕ) → n / 16 ^ suc k ≡ n / 16 / 16 ^ k
div-pow-suc n k = rw (pow-succ' 16 k) (sym (div-div-eq-div-mul n 16 (16 ^ k)))

-- Reading `k` digits of `n` after the digits above them gives `n`.
hex_value-hex_text :
    (k n : ℕ) (rest : Text) → hex_value (n / 16 ^ k) (hex_text k n rest) ≡ hex_value n rest
unfolding hex_text
hex_value-hex_text zero n rest = rw (pow-zero, div-one)
hex_value-hex_text (suc k) n rest =
    rw (div-pow-suc n k)
      (hex_value-hex_text k (n / 16) (hex_digit (n % 16) ∷ rest) ∙ hex_value-digit n rest)

-- A group of `k` digits, read after the digits above it.
read_group :
    (k acc n : ℕ) (rest : Text)
    → acc ≡ n / 16 ^ k
    → hex_value acc (hex_text k n rest) ≡ hex_value n rest
read_group k acc n rest e =
    ap (λ a. hex_value a (hex_text k n rest)) e ∙ hex_value-hex_text k n rest

read_group_dash :
    (k acc n : ℕ) (rest : Text)
    → acc ≡ n / 16 ^ k
    → hex_value acc (hex_text k n (b'-' ∷ rest)) ≡ hex_value n rest
read_group_dash k acc n rest e = read_group k acc n (b'-' ∷ rest) e ∙ hex_value-dash n rest

hex_value-nil : (acc : ℕ) → hex_value acc [] ≡ acc
unfolding hex_value
hex_value-nil acc = refl

hex_value-uuid_text : (n : ℕ) → n < 16 ^ 32 → hex_value 0 (uuid_text n) ≡ n
unfolding uuid_text
hex_value-uuid_text n h =
    read_group_dash 8 0 (n / 16 ^ 24) _ (omega arith)
    ∙ read_group_dash 4 (n / 16 ^ 24) (n / 16 ^ 20) _ (omega arith)
    ∙ read_group_dash 4 (n / 16 ^ 20) (n / 16 ^ 16) _ (omega arith)
    ∙ read_group_dash 4 (n / 16 ^ 16) (n / 16 ^ 12) _ (omega arith)
    ∙ read_group 12 (n / 16 ^ 12) n [] refl
    ∙ hex_value-nil n

-- `UUID(str(uuid))` is the UUID.
pub canonical_uuid-uuid_text : (n : ℕ) → n < 16 ^ 32 → canonical_uuid (uuid_text n) ≡ some n
unfolding canonical_uuid
canonical_uuid-uuid_text n h = rw (hex_value-uuid_text n h, text_eq_refl)
