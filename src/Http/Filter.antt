-- ===== src/Http/Filter.antt =====
-- What clients see of a failure.
use smart_platform_services.Common.{
  ℕ, ◌≡◌, refl, inl, inr, true, false, Option, none, some, List, Text, text, leb, Bool-cases,
}
use smart_platform_services.Http.{
  Exception, http_exception, RequestContext, status_of, get_exception_response, answer,
  ExceptionResponse, many, messages, object_response, is_request_id, request_id,
}

abbrev code_of : Exception → Option Text
code_of e = (get_exception_response e).code

module _ (status_name : ℕ → Option Text) where
  -- What is sent for an unexpected exception depends on its status and its code, and on nothing else of
  -- it: not on its message, its stack or its details.
  pub answer_confidential :
      (e e' : Exception) (request : RequestContext)
      → leb 500 (status_of e) ≡ true
      → status_of e ≡ status_of e'
      → (get_exception_response e).code ≡ (get_exception_response e').code
      → answer status_name e request ≡ answer status_name e' request
  unfolding answer
  answer_confidential e e' request unexpected same code =
      let unexpected' : leb 500 (status_of e') ≡ true = rw same at unexpected in
      rw (code, same, unexpected') refl

  -- A failed validation is answered with its messages as details.
  pub answer_validation :
      (status : ℕ) (body : ExceptionResponse) (texts : List Text) (message stack : Text)
      (request : RequestContext)
      → leb 500 status ≡ false
      → body.message ≡ many texts
      → let sent =
          answer status_name (http_exception status (object_response body) message stack) request in
        (sent.0 ≡ status)
        × (sent.1.message ≡ text "Request validation failed")
        × (sent.1.details ≡ some (messages texts))
  unfolding answer
  answer_validation status body texts message stack request expected e =
      (refl, rw (expected, e) refl, rw (expected, e) refl)

-- The id of a request has the form that is wanted of it, whatever the client sends.
pub request_id_form :
    (incoming : Option Text) (drawn : Text)
    → is_request_id drawn ≡ true
    → is_request_id (request_id incoming drawn) ≡ true
unfolding request_id
request_id_form none drawn h = h
request_id_form (some incoming) drawn h = elim (Bool-cases (is_request_id incoming)) [
  | inl k ↦ rw k k
  | inr k ↦ rw k h
]
