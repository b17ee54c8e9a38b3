-- ===== src/Identity/Ports/Answers.antt =====
-- What the mail port answers in a validated environment.
use smart_platform_services.Common.{
  ℕ, ◌+◌, ◌/◌, ◌⊎◌, none, ◌∷◌, ◌≡◌, refl, inl, inr, Bool, true, false, not, ◌&&◌, some, List, Text,
  text, if◌then◌else◌, ◌==◌, text_Eq, same_text, holds, Bool-cases, Option-cases,
}
use smart_platform_services.Identity.Contracts.{
  registration, purpose_Eq, service_unavailable, otp_provider_unavailable,
}
use smart_platform_services.Identity.Exec.{Result, ok, err}
use smart_platform_services.Configuration.{
  Environment, Reading, Rule, required_for_brevo, is_valid, environment_schema,
  validate_environment, at_least, email,
}
use smart_platform_services.Configuration.Sections.{DeliverySection, delivery_section}
use smart_platform_services.Configuration.Bounds.{nth, valid-nth}
use smart_platform_services.Identity.Ports.{
  EmailOtpMessage, Outgoing, local_line, brevo_request, subject_of, Fetched, responded, not_fetched,
  get_or_throw, is_production, assert_available, send_with_brevo, send_otp,
}

abbrev pub is_answered : Fetched → Bool
is_answered (responded is_ok) = is_ok
is_answered not_fetched = false

-- What is sent for a message: the mail to Brevo, and the line on the console, which has the code of
-- a registration only.
abbrev pub mailed : DeliverySection → Text → Text → EmailOtpMessage → Outgoing
mailed c key sender m = brevo_request (record {
  api_key = key;
  sender_email = sender;
  sender_name = c.brevo_sender_name;
  to = m.email;
  subject = subject_of c m.purpose;
  code = m.code;
  minutes = (m.expires_in_seconds + 59) / 60;
})

abbrev pub printed : EmailOtpMessage → Outgoing
printed m = local_line (record {
  email = m.email;
  purpose = m.purpose;
  code = if m.purpose == registration then some m.code else none;
  expires_in_seconds = m.expires_in_seconds;
})

abbrev pub answer_of : Bool → Result (Unit {0})
answer_of sent = if sent then ok tt else err (service_unavailable otp_provider_unavailable)

-- Through Brevo, with the key and the sender of the environment, or on the console.
abbrev pub Sent :
    Environment
    → Fetched
    → EmailOtpMessage
    → List Outgoing
    → Result (Unit {0}) × List Outgoing
    → Type 0
Sent env fetched m log outcome =
    let c = delivery_section env in
    ((key sender : Text) × ((c.email_delivery_mode == text "brevo") ≡ true)
      × (env (text "BREVO_API_KEY") ≡ some key)
      × (env (text "BREVO_SENDER_EMAIL") ≡ some sender)
      × (outcome ≡ (answer_of (is_answered fetched), mailed c key sender m ∷ log)))
    ⊎ ((c.email_delivery_mode == text "brevo") ≡ false)
      × (outcome ≡ (
          if c.email_delivery_mode == text "console" && not (is_production c)
          then (answer_of true, printed m ∷ log)
          else (answer_of false, log)))

module _ (r : Reading) (env : Environment) (valid : validate_environment r env ≡ true) where
  mode_holds :
      (delivery_section env).email_delivery_mode == text "brevo" ≡ true
      → holds (env (text "EMAIL_DELIVERY_MODE")) (text "brevo") ≡ true
  unfolding delivery_section same_text
  mode_holds h = elim (Option-cases (env (text "EMAIL_DELIVERY_MODE"))) [
    | inl e ↦ absurd (cc (rw e at h))
    | inr (mode, e) ↦ rw e (rw e at h)
  ]

  brevo-nth :
      (n : ℕ) (key : Text) (rule : Rule)
      → nth n environment_schema
        ≡ some (record { key = key; presence = required_for_brevo; rule = rule })
      → (delivery_section env).email_delivery_mode == text "brevo" ≡ true
      → (value : Text) × (env key ≡ some value)
  unfolding is_valid
  brevo-nth n key rule found h =
      let k =
        valid-nth r env valid n (record { key = key; presence = required_for_brevo; rule = rule })
          found in
      elim (Option-cases (env key)) [
        | inl e ↦ absurd (cc (rw (e, mode_holds h) at k))
        | inr (value, e) ↦ (value, e)
      ]

  abbrev c : DeliverySection
  c = delivery_section env

  via_brevo :
      (fetched : Fetched) (m : EmailOtpMessage) (log : List Outgoing) (key sender : Text)
      → c.email_delivery_mode == text "brevo" ≡ true
      → env (text "BREVO_API_KEY") ≡ some key
      → env (text "BREVO_SENDER_EMAIL") ≡ some sender
      → send_otp c fetched m log ≡ (answer_of (is_answered fetched), mailed c key sender m ∷ log)
  unfolding send_otp assert_available send_with_brevo get_or_throw delivery_section
  via_brevo (responded true) m log key sender brevo k e = rw (brevo, k, e) refl
  via_brevo (responded false) m log key sender brevo k e = rw (brevo, k, e) refl
  via_brevo not_fetched m log key sender brevo k e = rw (brevo, k, e) refl

  via_console :
      (fetched : Fetched) (m : EmailOtpMessage) (log : List Outgoing)
      → c.email_delivery_mode == text "brevo" ≡ false
      → send_otp c fetched m log ≡ (
          if c.email_delivery_mode == text "console" && not (is_production c)
          then (answer_of true, printed m ∷ log)
          else (answer_of false, log))
  unfolding send_otp assert_available
  via_console fetched m log other =
      elim (Bool-cases (c.email_delivery_mode == text "console" && not (is_production c))) [
        | inl on ↦ rw (other, on) refl
        | inr off ↦ rw (other, off) refl
      ]

  -- In a validated environment the mail port never fails for want of a configuration. With Brevo as
  -- the mode, one request is made, to the address of the message, with its code and the key and the
  -- sender of the environment, and the answer is that the code is sent, or that it cannot be when
  -- Brevo does not take the request. With the console as the mode, outside production, one line is
  -- printed, with the code of a registration and without that of a recovery. In every other mode
  -- nothing leaves, and the answer is that the code cannot be sent.
  pub send_otp_lem :
      (fetched : Fetched) (m : EmailOtpMessage) (log : List Outgoing)
      → Sent env fetched m log (send_otp (delivery_section env) fetched m log)
  unfolding environment_schema
  send_otp_lem fetched m log = elim (Bool-cases (c.email_delivery_mode == text "brevo")) [
    | inl brevo ↦
        let (key, k) = brevo-nth 40 (text "BREVO_API_KEY") (at_least 20) refl brevo in
        let (sender, e) = brevo-nth 41 (text "BREVO_SENDER_EMAIL") email refl brevo in
        inl (key, sender, brevo, k, e, via_brevo fetched m log key sender brevo k e)
    | inr other ↦ inr (other, via_console fetched m log other)
  ]
