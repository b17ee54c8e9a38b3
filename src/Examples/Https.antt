-- ===== src/Examples/Https.antt =====
-- HTTP: tests, and the theorem at a failure with details.
use smart_platform_services.Common.{◌≡◌, refl, none, some, Text, text, ℕ, Option}
use smart_platform_services.Http.{
  Exception, http_exception, error, object_response, one, other, RequestContext, answer, request_id,
  write, log, debug,
}
use smart_platform_services.Http.Filter.{answer_confidential}

abbrev status_name : ℕ → Option Text
status_name _ = some (text "INTERNAL_SERVER_ERROR")

abbrev request : RequestContext
request = record { request_id = some (text "r-1"); original_url = text "/profile"; now = 5 }

abbrev leaky : Exception
leaky =
    http_exception 500
      (object_response
        (record { code = none; message = one (text "pg: secret"); details = some (other 1) }))
      (text "pg: secret") (text "at repository")

answer_confidential_example :
    answer status_name leaky request
    ≡ answer status_name (error (text "boom") (text "at x")) request
answer_confidential_example =
    answer_confidential status_name leaky (error (text "boom") (text "at x")) request refl refl refl

client_id_test : request_id (some (text "abc-1")) (text "drawn") ≡ text "abc-1"
unfolding request_id
client_id_test = refl

bad_id_test : request_id (some (text "a b")) (text "drawn") ≡ text "drawn"
unfolding request_id
bad_id_test = refl

silent_test :
    write {M = ℕ} log
      (record { level = debug; context = text "x"; message = text "y"; metadata = 0 })
    ≡ none
unfolding write
silent_test = refl
