-- ===== src/Types/Errors.antt =====
-- internal/shared/types/error.go and internal/shared/db/error.go.
-- Go's `error` interface is one data type of the errors that the program makes or tests for.
pub mod Status
use staking_api_service.Base.{ℕ, String, Bool, true, false, eqb, if◌then◌else◌}

-- The constants of `ErrorCode`; `unset` is the empty string.
pub data ErrorCode : Type 0 where
  internal_service_error validation_error not_found bad_request forbidden : ErrorCode
  unprocessable_entity request_timeout unset : ErrorCode

-- `no_documents` is `mongo.ErrNoDocuments`, `external` any other error of a package outside the repository, `text` an `errors.New` or
-- `fmt.Errorf`, and `api` a `*types.Error` that is passed on as an `error`.
pub data GoError : Type 0 where
  duplicate_key : String → String → GoError
  invalid_pagination_token : String → GoError
  document_not_found : String → String → GoError
  no_documents : GoError
  text : String → GoError
  external : String → GoError
  api : ℕ → ErrorCode → GoError → GoError

unfoldable pub is_duplicate_key_error : GoError → Bool
is_duplicate_key_error (duplicate_key key message) = true
is_duplicate_key_error _ = false

unfoldable pub is_invalid_pagination_token_error : GoError → Bool
is_invalid_pagination_token_error (invalid_pagination_token message) = true
is_invalid_pagination_token_error _ = false

unfoldable pub is_not_found_error : GoError → Bool
is_not_found_error (document_not_found key message) = true
is_not_found_error _ = false

-- `errors.Is(err, mongo.ErrNoDocuments)`
unfoldable pub is_no_documents : GoError → Bool
is_no_documents no_documents = true
is_no_documents _ = false

pub record Error : Type 0 where
  pub err : GoError
  pub status_code : ℕ
  pub error_code : ErrorCode

default_code : ErrorCode → ErrorCode
default_code unset = internal_service_error
default_code code = code

unfoldable pub new_error : ℕ → ErrorCode → GoError → Error
unfolding default_code
new_error status_code error_code err = record {
  err = err;
  status_code = if eqb status_code 0 then Status.internal_server_error else status_code;
  error_code = default_code error_code;
}

unfoldable pub new_error_with_msg : ℕ → ErrorCode → String → Error
unfolding new_error
new_error_with_msg status_code error_code msg = new_error status_code error_code (text msg)

unfoldable pub new_internal_service_error : GoError → Error
new_internal_service_error err = record {
  err = err;
  status_code = Status.internal_server_error;
  error_code = internal_service_error;
}

-- a `*types.Error` where an `error` is wanted
abbrev pub as_go_error : Error → GoError
as_go_error e = api e.status_code e.error_code e.err
