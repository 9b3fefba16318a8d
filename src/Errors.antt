-- ===== src/Errors.antt =====
-- app/errors.py: the application errors with their statuses and codes, the handlers that render
-- them, and the other exceptions that a modelled function can leave with.
pub mod Laws
use quotaguard.Prelude.{
  Bool, List, Text, [], codes, if◌then◌else◌, is_empty, join, text_eq, ℕ, ◌++◌, ◌==◌, ◌||◌, ◌∷◌,
}

-- The subclasses of `AppError`, with their messages.
pub data AppError : Type 0 where
  validation unauthorized not_found conflict internal : Text → AppError

-- One error of pydantic: where it is, and its message.
pub data Part : Type 0 where
  part_name : Text → Part
  offset : ℕ → Part

pub record Problem : Type 0 where
  pub loc : List Part
  pub msg : Text

-- `request_validation` is FastAPI's error for a request that does not fit its model.
pub data Exception : Type 0 where
  app : AppError → Exception
  request_validation : List Problem → Exception
  value_error type_error key_error zero_division attribute_error : Exception
  no_script redis_error sqlalchemy_error runtime_error lock_not_acquired : Exception

pub data Result {ℓ} (A : Type ℓ) : Type ℓ where
  ok : A → Result A
  raise : Exception → Result A

infixl 5 ◌>>=◌
abbrev pub ◌>>=◌ {ℓ κ} : {A : Type ℓ} {B : Type κ} → Result A → (A → Result B) → Result B
ok a >>= f = f a
raise e >>= f = raise e

unfoldable pub status_code : AppError → ℕ
status_code (validation _) = 422
status_code (unauthorized _) = 401
status_code (not_found _) = 404
status_code (conflict _) = 409
status_code (internal _) = 500

unfoldable pub error_code : AppError → Text
error_code (validation _) = codes "validation_error"
error_code (unauthorized _) = codes "unauthorized"
error_code (not_found _) = codes "not_found"
error_code (conflict _) = codes "conflict"
error_code (internal _) = codes "internal_error"

unfoldable pub message_of : AppError → Text
message_of (validation m) = m
message_of (unauthorized m) = m
message_of (not_found m) = m
message_of (conflict m) = m
message_of (internal m) = m

-- The one error envelope, with its status.
pub record ErrorResponse : Type 0 where
  pub status : ℕ
  pub code : Text
  pub message : Text

unfoldable pub error_response : ℕ → Text → Text → ErrorResponse
error_response status code message = record { status = status; code = code; message = message }

unfoldable pub framework_code : ℕ → Text
framework_code status =
    if status == 401
    then codes "unauthorized"
    else if status == 403
    then codes "unauthorized"
    else if status == 404
    then codes "not_found"
    else if status == 409
    then codes "conflict"
    else codes "internal_error"

unfoldable pub framework_message : ℕ → Text
framework_message status =
    if status == 401
    then codes "Authentication is required for this route."
    else if status == 403
    then codes "Authentication is required for this route."
    else if status == 404
    then codes "The requested resource does not exist."
    else if status == 405
    then codes "That method is not allowed on this route."
    else codes "The request could not be completed."

unfoldable pub handle_http_exception : ℕ → ErrorResponse
handle_http_exception status =
    error_response status (framework_code status) (framework_message status)

-- The parts that are not the place of the request in which the field stands.
unfoldable pub is_place : Text → Bool
is_place part =
    text_eq part (codes "body") || text_eq part (codes "query") || text_eq part (codes "path")

unfoldable pub location : List Part → List Text
location [] = []
location (offset n ∷ parts) = location parts
location (part_name part ∷ parts) = if is_place part then location parts else part ∷ location parts

-- A dot at the end goes, with those before it.
abbrev pub onto_stripped : ℕ → Text → Text
onto_stripped c [] = if c == b'.' then [] else c ∷ []
onto_stripped c (d ∷ s) = c ∷ d ∷ s

-- `.rstrip(".")`
unfoldable pub strip_dots : Text → Text
strip_dots [] = []
strip_dots (c ∷ s) = onto_stripped c (strip_dots s)

unfoldable pub validation_of : Problem → Text
validation_of p =
    let field = join b'.' (location p.loc) in
    let detail = strip_dots p.msg in
    if is_empty field then detail ++ codes "." else field ++ codes ": " ++ detail ++ codes "."

-- `_validation_message`: the first error alone.
unfoldable pub validation_message : List Problem → Text
validation_message [] = codes "The request body is invalid."
validation_message (p ∷ ps) = validation_of p

-- `handle_app_error`, `handle_request_validation` and `handle_unexpected`
unfoldable pub handle : Exception → ErrorResponse
handle (app e) = error_response (status_code e) (error_code e) (message_of e)
handle (request_validation problems) =
    error_response 422 (codes "validation_error") (validation_message problems)
handle _ = error_response 500 (codes "internal_error") (codes "Something went wrong on our side.")
