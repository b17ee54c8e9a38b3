-- ===== src/Identity/Bodies.antt =====
-- libs/identity/src/http/auth.dto.ts: the patterns and the transforms of the bodies. The tests of
-- class-validator for addresses and uuids are not modelled.
pub mod Normal
use smart_platform_services.Common.{
  all_characters, ℕ, Bool, true, false, not, ◌&&◌, ◌||◌, Option, none, some, [], ◌∷◌, Text, text,
  leb, nat_eq, if◌then◌else◌, ◌==◌, nat_Eq, text_Eq, length, trim, to_lower_case, collapse_spaces,
  is_truthy,
}
use smart_platform_services.Identity.Auth.Codes.{is_digit}

-- `p.test` at some character of the text.
abbrev pub some_character : (ℕ → Bool) → Text → Bool
some_character p [] = false
some_character p (c ∷ s) = p c || some_character p s

abbrev pub is_lower : ℕ → Bool
is_lower c = leb b'a' c && leb c b'z'

abbrev pub is_upper : ℕ → Bool
is_upper c = leb b'A' c && leb c b'Z'

-- `OTP_CODE = /^\d{6}$/`
unfoldable pub is_otp_code : Text → Bool
is_otp_code s = length s == 6 && all_characters is_digit s

-- `E164_PHONE = /^\+[1-9]\d{7,14}$/`
unfoldable pub is_e164_phone : Text → Bool
is_e164_phone (plus ∷ first ∷ rest) =
    nat_eq plus b'+'
    && (leb b'1' first && leb first b'9')
    && leb 7 (length rest)
    && leb (length rest) 14
    && all_characters is_digit rest
is_e164_phone _ = false

-- `@MinLength(8) @MaxLength(128)` with the three patterns of every new password.
unfoldable pub is_new_password : Text → Bool
is_new_password s =
    leb 8 (length s)
    && leb (length s) 128
    && some_character is_lower s
    && some_character is_upper s
    && some_character is_digit s

-- With `/[^A-Za-z0-9]/`, of a sign-up and of a recovery.
unfoldable pub is_special_password : Text → Bool
is_special_password s =
    is_new_password s && some_character (λ c. not (is_lower c || is_upper c || is_digit c)) s

-- The transforms.
unfoldable pub normalized_email : Text → Text
normalized_email value = to_lower_case (trim value)

unfoldable pub body_name : Text → Text
body_name value = collapse_spaces (trim value)

unfoldable pub body_phone : Option Text → Option Text
body_phone none = none
body_phone (some value) = let phone = trim value in if phone == text "" then none else some phone
