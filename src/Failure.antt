-- ===== src/Failure.antt =====
-- pkg/app/errors/errors.go: the categories of a service's errors, their codes, and what wraps an error in one. A
-- Go error is kept as far as its readers look: its text, the category of the first `ServiceError` of its chain, and
-- whether `context.DeadlineExceeded` is in the chain.
use Prim.Native.String.{◌++◌ as str_append}
use canton_middleware.Prelude.{ℕ, String, Bool, true, false, Option, none, some, ◌||◌, str_eq}
use canton_middleware.Prelude.Int.{ℤ, pos, neg}

pub data Category : Type 0 where
  no_error data_error unauthorized forbidden resource_not_found not_supported : Category
  data_conflict locked gone dependency_failure general_error recovering connection_timeout :
      Category

pub Category-discrete : Discrete Category
Category-discrete = hlevel

pub record Failure : Type 0 where
  pub category : Option Category
  pub is_deadline : Bool
  pub text : String

abbrev pub plain : String → Failure
plain text = record { category = none; is_deadline = false; text = text }

-- `fmt.Errorf("…: %w", err)`.
abbrev pub prefixed : String → Failure → Failure
prefixed words cause = record cause { text = str_append words cause.text }

-- The text of a service error is that of its cause; `Is` compares its message with the target's text.
abbrev pub service_error : Category → String → Failure → Failure
service_error category message cause = record {
  category = some category;
  is_deadline = str_eq message "context deadline exceeded" || cause.is_deadline;
  text = cause.text;
}

abbrev pub cause_or : String → Option Failure → Failure
cause_or words none = plain words
cause_or words (some cause) = cause

unfoldable pub bad_request_error : Option Failure → String → Failure
bad_request_error cause message =
    service_error data_error message (cause_or (str_append "bad request:" message) cause)

unfoldable pub not_supported_error : Option Failure → String → Failure
not_supported_error cause message =
    service_error not_supported message (cause_or (str_append "not supported:" message) cause)

unfoldable pub forbidden_error : Option Failure → String → Failure
forbidden_error cause message = service_error forbidden message (cause_or "request forbidden" cause)

unfoldable pub dependency_error : Option Failure → String → Failure
dependency_error cause message =
    service_error dependency_failure message
      (cause_or (str_append "dependency failure: " message) cause)

unfoldable pub resource_not_found_error : Option Failure → String → Failure
resource_not_found_error cause message =
    service_error resource_not_found message
      (cause_or (str_append "resource not found:" message) cause)

unfoldable pub general_error_of : Option Failure → Failure
general_error_of cause =
    service_error general_error "Internal Server Error" (cause_or "internal server error" cause)

-- `ErrorCode`, of JSON-RPC.
unfoldable pub error_code : Category → ℤ
error_code data_error = neg (pos 32602)
error_code not_supported = neg (pos 32601)
error_code _ = neg (pos 32000)

-- `StatusCode`, of HTTP.
unfoldable pub status_code : Category → ℕ
status_code data_error = 400
status_code unauthorized = 401
status_code forbidden = 403
status_code resource_not_found = 404
status_code not_supported = 405
status_code data_conflict = 409
status_code locked = 423
status_code gone = 410
status_code dependency_failure = 502
status_code recovering = 503
status_code connection_timeout = 504
status_code _ = 500

-- The categories before `CategoryDependencyFailure` are the client's.
abbrev is_client : Category → Bool
is_client dependency_failure = false
is_client general_error = false
is_client recovering = false
is_client connection_timeout = false
is_client _ = true

unfoldable pub is_internal_error : Failure → Bool
is_internal_error f = elim f.category [ none ↦ true | some c ↦ not_client (is_client c) ]
  where
    not_client : Bool → Bool
    not_client true = false
    not_client false = true

unfoldable pub unauthorized_error : Option Failure → String → Failure
unauthorized_error cause message =
    service_error unauthorized message (cause_or "unauthorized" cause)

unfoldable pub gone_error : Option Failure → String → Failure
gone_error cause message = service_error gone message (cause_or (str_append "gone: " message) cause)

unfoldable pub conflict_error : Option Failure → String → Failure
conflict_error cause message = service_error data_conflict message (cause_or "conflict" cause)
