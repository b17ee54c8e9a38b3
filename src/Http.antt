-- ===== src/Http.antt =====
-- libs/common/src/http and libs/common/src/logging: request ids, the log of requests and the filter that
-- answers exceptions. The names of the statuses (`HttpStatus`), `getStatus` and `getResponse` of an
-- exception are the framework's: they come with the exception, or as an argument.
pub mod Filter
use smart_platform_services.Common.{
  all_characters, ℕ, ◌≡◌, Bool, true, false, not, ◌&&◌, ◌||◌, Option, none, some, List, [], ◌∷◌,
  ◌++◌, Text, text, ltb, leb, if◌then◌else◌, is_some, is_none, length, nat_eq, is_truthy, or_null,
}

-- `message` of a response: absent, one text or several.
pub data Message : Type 0 where
  no_message : Message
  one : Text → Message
  many : List Text → Message

-- `details`: the messages of a validation, or whatever an exception brings.
pub data Details : Type 0 where
  messages : List Text → Details
  other : ℕ → Details

pub record ExceptionResponse : Type 0 where
  pub code : Option Text
  pub message : Message
  pub details : Option Details

-- What `getResponse` of an `HttpException` gives.
pub data HttpResponse : Type 0 where
  string_response : Text → HttpResponse
  object_response : ExceptionResponse → HttpResponse

-- What a handler may throw: an `HttpException` with its status, response, message and stack, another
-- `Error` with its message and stack, or another value.
pub data Exception : Type 0 where
  http_exception : ℕ → HttpResponse → Text → Text → Exception
  error : Text → Text → Exception
  other_value : ℕ → Exception

pub record RequestContext : Type 0 where
  pub request_id : Option Text
  pub original_url : Text
  pub now : ℕ

pub record ErrorBody : Type 0 where
  pub code : Text
  pub message : Text
  pub details : Option Details
  pub request_id : Option Text
  pub timestamp : ℕ
  pub path : Text

-- `exception instanceof HttpException ? exception.getStatus() : 500`
abbrev pub status_of : Exception → ℕ
status_of (http_exception status response message stack) = status
status_of _ = 500

abbrev pub empty_response : ExceptionResponse
empty_response = record { code = none; message = no_message; details = none }

abbrev pub validation_response : ExceptionResponse → Message → ExceptionResponse
validation_response body (many texts) = record body {
  message = one (text "Request validation failed");
  details = some (messages texts);
}
validation_response body _ = body

abbrev pub get_exception_response : Exception → ExceptionResponse
get_exception_response (http_exception status (string_response value) message stack) =
    record empty_response { message = one value }
get_exception_response (http_exception status (object_response body) message stack) =
    validation_response body body.message
get_exception_response _ = empty_response

abbrev pub join_texts : List Text → Text
join_texts [] = []
join_texts (t ∷ []) = t
join_texts (t ∷ u ∷ rest) = t ++ (text ", " ++ join_texts (u ∷ rest))

abbrev pub get_public_message : Message → Text
get_public_message no_message = text "Request failed"
get_public_message (one value) = value
get_public_message (many texts) = join_texts texts

abbrev pub or_else : Option Text → Text → Text
or_else none fallback = fallback
or_else (some value) fallback = value

-- Where the log lines go, with what `write` is given.
pub data LogLevel : Type 0 where
  fatal log_error warn log debug verbose : LogLevel

abbrev pub weight : LogLevel → ℕ
weight fatal = 60
weight log_error = 50
weight warn = 40
weight log = 30
weight debug = 20
weight verbose = 10

pub data Stream : Type 0 where
  stdout stderr : Stream

pub record LogLine {ℓ} (M : Type ℓ) : Type ℓ where
  pub level : LogLevel
  pub context : Text
  pub message : Text
  pub metadata : M

abbrev pub stream_of : LogLevel → Stream
stream_of fatal = stderr
stream_of log_error = stderr
stream_of _ = stdout

-- `JsonLoggerService.write`: the line, and where it goes, unless its level is below the minimum.
unfoldable pub write {ℓ} : {M : Type ℓ} → LogLevel → LogLine M → Option (Stream × LogLine M)
write minimum line =
    if ltb (weight line.level) (weight minimum) then none else some (stream_of line.level, line)

module _ (status_name : ℕ → Option Text) where
  -- `HttpStatus[status]`
  abbrev pub status_code_name : ℕ → Text
  status_code_name status = or_else (status_name status) (text "HTTP_ERROR")

  -- `ApiExceptionFilter.catch`: the status and the body that are sent.
  unfoldable pub answer : Exception → RequestContext → ℕ × ErrorBody
  answer exception request =
      let status = status_of exception in
      let response = get_exception_response exception in
      let is_unexpected = leb 500 status in
      (
        status,
        record {
          code = or_else response.code (status_code_name status);
          message =
              if is_unexpected
              then text "An unexpected error occurred"
              else get_public_message response.message;
          details = if is_unexpected then none else response.details;
          request_id = request.request_id;
          timestamp = request.now;
          path = request.original_url;
        },
      )

abbrev pub error_of : Exception → Text → Text × Text
error_of (http_exception status response message stack) fresh = (message, stack)
error_of (error message stack) fresh = (message, stack)
error_of (other_value v) fresh = (text "Unknown exception", fresh)

-- What the filter logs of an unexpected exception: a message and a stack, `fresh` being that of an `Error`
-- that the filter makes.
unfoldable pub logged_error : LogLevel → Exception → Text → Option (Stream × LogLine (Option Text))
logged_error minimum exception fresh =
    if leb 500 (status_of exception)
    then write minimum (record {
      level = log_error;
      context = text "ApiExceptionFilter";
      message = (error_of exception fresh).0;
      metadata = or_null (error_of exception fresh).1;
    })
    else none

pub record RequestMetadata : Type 0 where
  pub request_id : Option Text
  pub method : Text
  pub path : Text
  pub status_code : ℕ
  pub duration_ms : ℕ

-- What a handler gives: a response with its status, or an exception.
pub data Outcome {ℓ} (A : Type ℓ) : Type ℓ where
  completed : A → Outcome A
  thrown : Exception → Outcome A

abbrev pub logged_outcome {ℓ} :
    {A : Type ℓ} → (ℕ → RequestMetadata) → ℕ → Outcome A → LogLine RequestMetadata
logged_outcome metadata status (completed a) = record {
  level = log;
  context = text "Http";
  message = text "http_request_completed";
  metadata = metadata status;
}
logged_outcome metadata status (thrown e) = record {
  level = warn;
  context = text "Http";
  message = text "http_request_failed";
  metadata = metadata (status_of e);
}

-- `HttpLoggingInterceptor.intercept` of an HTTP request: the outcome goes on as it is. `status` is that of
-- the response.
unfoldable pub intercept {ℓ} :
    {A : Type ℓ}
    → LogLevel
    → (ℕ → RequestMetadata)
    → ℕ
    → Outcome A
    → Option (Stream × LogLine RequestMetadata) × Outcome A
intercept minimum metadata status outcome =
    (write minimum (logged_outcome metadata status outcome), outcome)

-- `/^[a-zA-Z0-9._:-]{1,128}$/`
abbrev pub is_id_character : ℕ → Bool
is_id_character c =
    (leb b'a' c && leb c b'z')
    || (leb b'A' c && leb c b'Z')
    || (leb b'0' c && leb c b'9')
    || nat_eq c b'.'
    || nat_eq c b'_'
    || nat_eq c b':'
    || nat_eq c b'-'

abbrev pub is_request_id : Text → Bool
is_request_id s = ltb 0 (length s) && leb (length s) 128 && all_characters is_id_character s

-- The id of a request: the client's, if it has the form, or the one that `randomUUID` draws.
unfoldable pub request_id : Option Text → Text → Text
request_id none drawn = drawn
request_id (some incoming) drawn = if is_request_id incoming then incoming else drawn
