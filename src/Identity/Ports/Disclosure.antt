-- ===== src/Identity/Ports/Disclosure.antt =====
-- Where a one-time code may go.
use smart_platform_services.Common.{
  ◌≡◌, refl, inl, inr, Bool, true, false, not, ◌&&◌, ◌||◌, Option, none, some, List, ◌∷◌, Text,
  text, ◌==◌, text_Eq, is_none, All, Bool-cases, arith,
}
use smart_platform_services.Identity.Contracts.{
  Error, service_unavailable, otp_provider_unavailable, registration, purpose_Eq,
}
use smart_platform_services.Identity.Exec.{
  require, modify, throw, ◌>>=◌, ◌>>◌, bind_keeps, catching_keeps,
}
use smart_platform_services.Configuration.Sections.{DeliverySection}
use smart_platform_services.Identity.Ports.{
  put_out, EmailOtpMessage, LegacyPhoneOtpMessage, Outgoing, local_line, legacy_line, brevo_request,
  Fetched, responded, not_fetched, get_or_throw, is_production, assert_available, check_response,
  local_event, brevo_body, request_brevo, send_with_brevo, send_otp, send,
}

-- A line is printed outside production only. A line of the mail port has no code of a recovery; the
-- line of the legacy flows, which has its code, is printed only where those flows are on and their
-- mode is the console. A request to Brevo is made only in its mode.
abbrev pub is_allowed : DeliverySection → Outgoing → Bool
is_allowed c (local_line e) = not (is_production c) && (is_none e.code || e.purpose == registration)
is_allowed c (legacy_line m) =
    not (is_production c) && c.legacy_phone_flows_enabled && c.otp_delivery_mode == text "console"
is_allowed c (brevo_request b) = c.email_delivery_mode == text "brevo"

abbrev pub AreAllowed : DeliverySection → List Outgoing → Type 0
AreAllowed c log = All (λ o. is_allowed c o ≡ true) log

module _ (c : DeliverySection) (log : List Outgoing) (before : AreAllowed c log) where
  local_event-allowed :
      (m : EmailOtpMessage)
      → is_production c ≡ false
      → is_allowed c (local_line (local_event c m)) ≡ true
  local_event-allowed m p = elim (Bool-cases (m.purpose == registration)) [
    | inl e ↦ rw (p, e) refl
    | inr e ↦ rw (p, e) refl
  ]

  looked_up :
      (value : Option Text) (t : List Outgoing)
      → AreAllowed c t
      → AreAllowed c (get_or_throw value t).1
  unfolding get_or_throw
  looked_up none t h = h
  looked_up (some value) t h = h

  checked :
      (is_ok : Bool) (e : Error) (t : List Outgoing)
      → AreAllowed c t
      → AreAllowed c (require is_ok e t).1
  checked true e t h = h
  checked false e t h = h

  answered :
      (fetched : Fetched) (t : List Outgoing)
      → AreAllowed c t
      → AreAllowed c (check_response c fetched t).1
  answered (responded is_ok) t h = checked is_ok _ t h
  answered not_fetched t h = h

  send_with_brevo-AreAllowed :
      (fetched : Fetched) (m : EmailOtpMessage) (t : List Outgoing)
      → (c.email_delivery_mode == text "brevo") ≡ true
      → AreAllowed c t
      → AreAllowed c (send_with_brevo c fetched m t).1
  unfolding send_with_brevo
  send_with_brevo-AreAllowed fetched m t brevo h =
      let with_sender =
        λ (key : Text). get_or_throw c.brevo_sender_email >>= request_brevo c fetched m key in
      catching_keeps (AreAllowed c) (get_or_throw c.brevo_api_key >>= with_sender)
        (λ e. throw (service_unavailable otp_provider_unavailable)) t
        (bind_keeps (AreAllowed c) (get_or_throw c.brevo_api_key) with_sender t
          (looked_up c.brevo_api_key t h)
          (λ key t₁ h₁.
            bind_keeps (AreAllowed c) (get_or_throw c.brevo_sender_email)
              (request_brevo c fetched m key) t₁ (looked_up c.brevo_sender_email t₁ h₁)
              (λ sender t₂ h₂.
                answered fetched (brevo_request (brevo_body c key sender m) ∷ t₂) (brevo, h₂))))
        (λ e t₃ h₃. h₃)

  assert_available-AreAllowed : AreAllowed c (assert_available c log).1
  unfolding assert_available
  assert_available-AreAllowed = elim (Bool-cases (c.email_delivery_mode == text "brevo")) [
    | inl brevo ↦ rw brevo (
        bind_keeps (AreAllowed c) (get_or_throw c.brevo_api_key) _ log
          (looked_up c.brevo_api_key log before)
          (λ key t h.
            bind_keeps (AreAllowed c) (get_or_throw c.brevo_sender_email) _ t
              (looked_up c.brevo_sender_email t h) (λ sender u k. k)))
    | inr other ↦ rw other (checked _ _ log before)
  ]

  print-AreAllowed :
      (m : EmailOtpMessage)
      → (c.email_delivery_mode == text "brevo") ≡ false
      → AreAllowed c ((assert_available c >> modify (put_out (local_line (local_event c m)))) log).1
  unfolding assert_available
  print-AreAllowed m other = elim (Bool-cases (c.email_delivery_mode == text "console")) [
    | inr mode ↦ rw (other, mode) before
    | inl mode ↦ elim (Bool-cases (is_production c)) [
      | inl p ↦ rw (other, mode, p) before
      | inr p ↦ rw (other, mode, p) (local_event-allowed m p, before)
    ]
  ]

  send_otp-AreAllowed :
      (fetched : Fetched) (m : EmailOtpMessage) → AreAllowed c (send_otp c fetched m log).1
  unfolding send_otp
  send_otp-AreAllowed fetched m = elim (Bool-cases (c.email_delivery_mode == text "brevo")) [
    | inl brevo ↦ rw brevo (
        bind_keeps (AreAllowed c) (assert_available c) _ log assert_available-AreAllowed
          (λ u t h. send_with_brevo-AreAllowed fetched m t brevo h))
    | inr other ↦ rw other (print-AreAllowed m other)
  ]

  send-AreAllowed : (m : LegacyPhoneOtpMessage) → AreAllowed c (send c m log).1
  unfolding send
  send-AreAllowed m =
      elim (Bool-cases (
        c.legacy_phone_flows_enabled
        && c.otp_delivery_mode == text "console"
        && not (is_production c))) [
          | inr off ↦ rw off before
          | inl on ↦ rw on (ground arith, before)
        ]

-- What the ports of mail and of the legacy flows let out, in whatever configuration and whatever Brevo
-- answers, after what was let out so before. In production no line is printed. A line of the mail port never has the code of a recovery.
-- A line of the legacy port, which has its code, of a recovery by phone too, is printed only when the
-- legacy flows are on and their delivery mode is the console. No request is made to Brevo unless that
-- is the mode.
pub send_otp_discloses :
    (c : DeliverySection) (fetched : Fetched) (m : EmailOtpMessage) (l : LegacyPhoneOtpMessage)
    (log : List Outgoing)
    → AreAllowed c log
    → AreAllowed c (send_otp c fetched m log).1 × AreAllowed c (send c l log).1
send_otp_discloses c fetched m l log before =
    (send_otp-AreAllowed c log before fetched m, send-AreAllowed c log before l)
