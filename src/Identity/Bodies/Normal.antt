-- ===== src/Identity/Bodies/Normal.antt =====
-- What the validation lets pass reaches the services as it was sent.
use smart_platform_services.Common.{
  all_characters, ℕ, ◌≡◌, refl, sym, ap, ◌∙◌, ◌↔◌, decimal, inl, inr, true, [], ◌∷◌, Text, nat_eq,
  nat_Eq, Solid, digit_solid, plus_solid, trim-Solid, All, Bool-cases, arith,
}
use smart_platform_services.Identity.Contracts.{OtpPurpose}
use smart_platform_services.Identity.Runtime.{Runtime}
use smart_platform_services.Identity.Auth.{normalize_phone, otp_code}
use smart_platform_services.Identity.Auth.Codes.{
  is_digit, value_from, code_number, otp_code_six_digits,
}
use smart_platform_services.Identity.Bodies.{is_otp_code, is_e164_phone}

digits-Solid : (s : Text) → all_characters is_digit s ≡ true → Solid s
digits-Solid [] h = tt
digits-Solid (c ∷ s) h = elim (Bool-cases (is_digit c)) [
  | inl d ↦ (digit_solid c d, digits-Solid s (rw d at h))
  | inr d ↦ absurd (cc (rw d at h))
]

from_each_digit : (s : Text) → All (λ c. is_digit c ≡ true) s → all_characters is_digit s ≡ true
from_each_digit [] h = refl
from_each_digit (c ∷ s) h = rw (h.0, from_each_digit s h.1) refl

parts :
    (plus first : ℕ) (rest : Text)
    → is_e164_phone (plus ∷ first ∷ rest) ≡ true
    → (nat_eq plus b'+' ≡ true) × (is_digit first ≡ true) × (all_characters is_digit rest ≡ true)
unfolding is_e164_phone
parts plus first rest h = (ground arith, ground arith, ground arith)

-- A phone that passes the validation is the one that the service looks up and stores.
pub normalize_phone-valid :
    (phone : Text) → is_e164_phone phone ≡ true → normalize_phone phone ≡ phone
unfolding is_e164_phone normalize_phone
normalize_phone-valid [] h = absurd (cc (h))
normalize_phone-valid (c ∷ []) h = absurd (cc (h))
normalize_phone-valid (plus ∷ first ∷ rest) h =
    let (p, f, d) = parts plus first rest h in
    trim-Solid (plus ∷ first ∷ rest) (plus_solid plus p, (digit_solid first f, digits-Solid rest d))

-- Every code that the service derives passes the validation of the body that sends it back, and the
-- digits of the text spell 100000 plus the word of the digest modulo 900000: two challenges have one
-- code only when their words agree modulo 900000.
pub otp_code_lem :
    (r : Runtime) (purpose : OtpPurpose) (challenge other : ℕ)
    → (is_otp_code (otp_code r purpose challenge) ≡ true)
      × (value_from 0 (otp_code r purpose challenge) ≡ code_number r purpose challenge)
      × (otp_code r purpose challenge ≡ otp_code r purpose other
          ↔ code_number r purpose challenge ≡ code_number r purpose other)
unfolding is_otp_code
otp_code_lem r purpose challenge other =
    let (six, digits, value) = otp_code_six_digits r purpose challenge in
    (
      rw (six, from_each_digit (otp_code r purpose challenge) digits) refl,
      value,
      (
        λ e. sym value ∙ ap (value_from 0) e ∙ (otp_code_six_digits r purpose other).2,
        λ e. unfold otp_code in ap (decimal 10) e,
      ),
    )
