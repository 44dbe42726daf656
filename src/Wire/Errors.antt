-- ===== src/Wire/Errors.antt =====
-- src/serve.rs: the status and the body of an error; src/api/remote.rs: the error that the client makes of
-- them.
-- How serde writes and reads a body is a parameter; a path is a text.
pub mod Kept
use plasmite.Prelude.{
  ℕ, Bool, true, false, Option, none, some, String, leb, ◌==◌, ◌||◌, ◌&&◌, if◌then◌else◌,
}
use plasmite.Error.{
  Error, ErrorKind, new, failure, with_message, with_hint, with_path, with_seq, with_offset,
}
use plasmite.Ingest.{kind_name, message_or}
use text.Mathlib.Text.{◌==◌ as str_eq, starts_with}

pub record ErrorBody : Type 0 where
  pub kind : String
  pub message : String
  pub path : Option String
  pub seq : Option ℕ
  pub offset : Option ℕ

unfoldable pub error_body : Error → ErrorBody
unfolding kind_name
error_body e = record {
  kind = kind_name e.kind;
  message = message_or "error" e.message;
  path = e.path;
  seq = e.seq;
  offset = e.offset;
}

abbrev pub forbidden_prefix : Option String → Bool
forbidden_prefix none = false
forbidden_prefix (some message) = starts_with message "forbidden:"

unfoldable pub is_access_forbidden : Error → Bool
is_access_forbidden e = forbidden_prefix e.message

unfoldable pub status_of : Bool → ErrorKind → ℕ
status_of forbidden ErrorKind.usage = 400
status_of forbidden ErrorKind.not_found = 404
status_of forbidden ErrorKind.already_exists = 409
status_of forbidden ErrorKind.busy = 423
status_of forbidden ErrorKind.permission = if forbidden then 403 else 401
status_of forbidden ErrorKind.corrupt = 500
status_of forbidden ErrorKind.io = 500
status_of forbidden ErrorKind.internal = 500

-- `error_response`: the status and the body.
unfoldable pub error_response : Error → ℕ × ErrorBody
unfolding status_of is_access_forbidden error_body
error_response e = (status_of (is_access_forbidden e) e.kind, error_body e)

pub record RemoteError : Type 0 where
  pub kind : String
  pub message : Option String
  pub hint : Option String
  pub path : Option String
  pub seq : Option ℕ
  pub offset : Option ℕ

unfoldable pub parse_error_kind : String → ErrorKind
parse_error_kind kind =
    if str_eq kind "Internal"
    then ErrorKind.internal
    else if str_eq kind "Usage"
    then ErrorKind.usage
    else if str_eq kind "NotFound"
    then ErrorKind.not_found
    else if str_eq kind "AlreadyExists"
    then ErrorKind.already_exists
    else if str_eq kind "Busy"
    then ErrorKind.busy
    else if str_eq kind "Permission"
    then ErrorKind.permission
    else if str_eq kind "Corrupt"
    then ErrorKind.corrupt
    else if str_eq kind "Io"
    then ErrorKind.io
    else ErrorKind.internal

unfoldable pub error_kind_from_status : ℕ → ErrorKind
error_kind_from_status status =
    if status == 400 || status == 413
    then ErrorKind.usage
    else if status == 401 || status == 403
    then ErrorKind.permission
    else if status == 404
    then ErrorKind.not_found
    else if status == 409
    then ErrorKind.already_exists
    else if status == 423
    then ErrorKind.busy
    else if leb 500 status && leb status 599
    then ErrorKind.internal
    else ErrorKind.io

-- `if let Some(x) = option { err = set(err, x) }`
abbrev pub set_if {ℓ} : {A : Type ℓ} → (A → Error → Error) → Option A → Error → Error
set_if set none e = e
set_if set (some a) e = set a e

unfoldable pub error_from_remote : RemoteError → Error
unfolding parse_error_kind
error_from_remote remote = set_if with_offset remote.offset (
    set_if with_seq remote.seq (
      set_if with_path remote.path (
        set_if with_hint remote.hint
          (set_if with_message remote.message (new (parse_error_kind remote.kind))))))

-- `parse_error_response` of what serde makes of the body; the status is left out of the message.
unfoldable pub parse_error_response : ℕ → Option RemoteError → Error
unfolding error_from_remote error_kind_from_status
parse_error_response status (some remote) = error_from_remote remote
parse_error_response status none = failure (error_kind_from_status status) "remote error status"
