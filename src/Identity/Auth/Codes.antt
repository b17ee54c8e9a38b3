-- ===== src/Identity/Auth/Codes.antt =====
-- The spelling of a one-time code.
use smart_platform_services.Common.{
  ℕ, zero, suc, ◌+◌, ◌-◌, ◌*◌, ◌/◌, ◌%◌, ◌≤◌, ◌<◌, ◌≡◌, refl, ap, ◌∙◌, Bool, true, ◌&&◌, [], ◌∷◌,
  ◌++◌, Text, arith, length, leb, ltb, Bool-cases, inl, inr, false, All, decimal,
}
use smart_platform_services.Identity.Contracts.{OtpPurpose}
use smart_platform_services.Identity.Runtime.{Runtime}
use smart_platform_services.Identity.Auth.{purpose_text, otp_code}

-- A decimal digit, and the number that digits spell behind those that spell `acc`.
abbrev pub is_digit : ℕ → Bool
is_digit c = leb b'0' c && leb c b'9'

abbrev pub value_from : ℕ → Text → ℕ
value_from acc [] = acc
value_from acc (c ∷ s) = value_from (acc * 10 + (c - b'0')) s

abbrev ten_to : ℕ → ℕ
ten_to zero = 1
ten_to (suc n) = 10 * ten_to n

value_from-append :
    (acc : ℕ) (s : Text) (c : ℕ)
    → value_from acc (s ++ (c ∷ [])) ≡ value_from acc s * 10 + (c - b'0')
value_from-append acc [] c = refl
value_from-append acc (d ∷ s) c = value_from-append (acc * 10 + (d - b'0')) s c

length-append : (s : Text) (c : ℕ) → length (s ++ (c ∷ [])) ≡ suc (length s)
length-append [] c = refl
length-append (d ∷ s) c = ap suc (length-append s c)

All-append :
    (s : Text) (c : ℕ)
    → All (λ x. is_digit x ≡ true) s
    → is_digit c ≡ true
    → All (λ x. is_digit x ≡ true) (s ++ (c ∷ []))
All-append [] c h k = (k, tt)
All-append (d ∷ s) c h k = (h.0, All-append s c h.1 k)

ten_to_pos : (n : ℕ) → 1 ≤ ten_to n
ten_to_pos zero = omega arith
ten_to_pos (suc n) = let h = ten_to_pos n in omega (arith, h)

-- A number from 10 ^ k up to 10 ^ (k + 1) has k + 1 digits.
length-decimal :
    (places k n : ℕ)
    → ten_to k ≤ n
    → n < ten_to (suc k)
    → k < places
    → length (decimal places n) ≡ suc k
unfolding decimal
length-decimal zero k n low high h = absurd (omega arith)
length-decimal (suc places) zero n low high h =
    let small : ltb n 10 ≡ true = ground arith in rw small refl
length-decimal (suc places) (suc k) n low high h =
    let pos = ten_to_pos k in
    let large : ltb n 10 ≡ false = ground (arith, pos) in
    rw large (
      length-append (decimal places (n / 10)) (b'0' + n % 10)
      ∙ ap suc (length-decimal places k (n / 10) (omega arith) (omega arith) (omega arith)))

decimal-digits : (places n : ℕ) → All (λ x. is_digit x ≡ true) (decimal places n)
unfolding decimal
decimal-digits zero n = tt
decimal-digits (suc places) n = elim (Bool-cases (ltb n 10)) [
  | inl s ↦ rw s (ground arith, tt)
  | inr s ↦ rw s (
      All-append (decimal places (n / 10)) (b'0' + n % 10) (decimal-digits places (n / 10))
        (ground arith))
]

value_from-decimal : (places n : ℕ) → n < ten_to places → value_from 0 (decimal places n) ≡ n
unfolding decimal
value_from-decimal zero n h = omega arith
value_from-decimal (suc places) n h = elim (Bool-cases (ltb n 10)) [
  | inl s ↦ rw s (omega arith)
  | inr s ↦
      let rest = value_from-decimal places (n / 10) (omega arith) in
      rw s (value_from-append 0 (decimal places (n / 10)) (b'0' + n % 10) ∙ rw rest (omega arith))
]

-- The number that a code spells.
abbrev pub code_number : Runtime → OtpPurpose → ℕ → ℕ
code_number r purpose challenge_id =
    100000 + r.hmac_word (purpose_text purpose ++ (b':' ∷ r.uuid_text challenge_id)) % 900000

-- A one-time code has six characters, all of them decimal digits, and spells its number.
pub otp_code_six_digits :
    (r : Runtime) (purpose : OtpPurpose) (challenge_id : ℕ)
    → let code = otp_code r purpose challenge_id in
      (length code ≡ 6)
      × All (λ c. is_digit c ≡ true) code
      × (value_from 0 code ≡ code_number r purpose challenge_id)
unfolding otp_code
otp_code_six_digits r purpose challenge_id =
    let number = code_number r purpose challenge_id in
    (
      length-decimal 10 5 number (omega arith) (omega arith) (omega arith),
      decimal-digits 10 number,
      value_from-decimal 10 number (omega arith),
    )
