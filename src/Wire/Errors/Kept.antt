-- ===== src/Wire/Errors/Kept.antt =====
-- What the remote client knows of an error of the server.
use plasmite.Prelude.{ℕ, ◌≡◌, ◌∙◌, ap, refl, Bool, true, false, Option, none, some, String}
use plasmite.Error.{Error, ErrorKind, new, with_message, with_path, with_seq, with_offset}
use plasmite.Ingest.{kind_name, message_or}
use plasmite.Wire.Errors.{
  ErrorBody, RemoteError, set_if, error_body, is_access_forbidden, status_of, error_response,
  parse_error_kind, error_kind_from_status, error_from_remote, parse_error_response,
}

-- serde reads a body back as it was written; a body has no hint.
abbrev pub read_back : ErrorBody → RemoteError
read_back body = record {
  kind = body.kind;
  message = some body.message;
  hint = none;
  path = body.path;
  seq = body.seq;
  offset = body.offset;
}

parse_error_kind-kind_name : (kind : ErrorKind) → parse_error_kind (kind_name kind) ≡ kind
unfolding parse_error_kind kind_name
parse_error_kind-kind_name ErrorKind.internal = refl
parse_error_kind-kind_name ErrorKind.usage = refl
parse_error_kind-kind_name ErrorKind.not_found = refl
parse_error_kind-kind_name ErrorKind.already_exists = refl
parse_error_kind-kind_name ErrorKind.busy = refl
parse_error_kind-kind_name ErrorKind.permission = refl
parse_error_kind-kind_name ErrorKind.corrupt = refl
parse_error_kind-kind_name ErrorKind.io = refl

-- The kinds that the status alone tells.
abbrev pub of_status : ErrorKind → ErrorKind
of_status ErrorKind.corrupt = ErrorKind.internal
of_status ErrorKind.io = ErrorKind.internal
of_status kind = kind

error_kind_from_status-status_of :
    (forbidden : Bool) (kind : ErrorKind)
    → error_kind_from_status (status_of forbidden kind) ≡ of_status kind
unfolding error_kind_from_status status_of
error_kind_from_status-status_of forbidden ErrorKind.internal = refl
error_kind_from_status-status_of forbidden ErrorKind.usage = refl
error_kind_from_status-status_of forbidden ErrorKind.not_found = refl
error_kind_from_status-status_of forbidden ErrorKind.already_exists = refl
error_kind_from_status-status_of forbidden ErrorKind.busy = refl
error_kind_from_status-status_of true ErrorKind.permission = refl
error_kind_from_status-status_of false ErrorKind.permission = refl
error_kind_from_status-status_of forbidden ErrorKind.corrupt = refl
error_kind_from_status-status_of forbidden ErrorKind.io = refl

-- The error that the fields of a body make.
set_fields :
    (kind : ErrorKind) (message : String) (path : Option String) (seq offset : Option ℕ)
    → set_if with_offset offset
        (set_if with_seq seq (set_if with_path path (with_message message (new kind))))
      ≡ (record {
        kind = kind;
        message = some message;
        hint = none;
        path = path;
        seq = seq;
        offset = offset;
      })
set_fields kind message none none none = refl
set_fields kind message none none (some offset) = refl
set_fields kind message none (some seq) none = refl
set_fields kind message none (some seq) (some offset) = refl
set_fields kind message (some path) none none = refl
set_fields kind message (some path) none (some offset) = refl
set_fields kind message (some path) (some seq) none = refl
set_fields kind message (some path) (some seq) (some offset) = refl

error_from_remote-read_back :
    (e : Error)
    → error_from_remote (read_back (error_body e))
      ≡ record e { message = some (message_or "error" e.message); hint = none }
unfolding error_from_remote error_body
error_from_remote-read_back e =
    set_fields (parse_error_kind (kind_name e.kind)) (message_or "error" e.message) e.path e.seq
      e.offset
    ∙ ap
        (λ kind. record e {
          kind = kind;
          message = some (message_or "error" e.message);
          hint = none;
        })
        (parse_error_kind-kind_name e.kind)

-- An error of the server as the client has it: of a body that is read back as it was written, the kind, the path,
-- the sequence number and the offset, the message or "error", and no hint; of a status alone, the kind, with
-- the internal one for corrupt and I/O errors.
pub parse_error_response_lem :
    (e : Error)
    → let (status, body) = error_response e in
      (parse_error_response status (some (read_back body))
        ≡ record e { message = some (message_or "error" e.message); hint = none })
      × ((parse_error_response status none).kind ≡ of_status e.kind)
unfolding parse_error_response error_response
parse_error_response_lem e =
    (error_from_remote-read_back e, error_kind_from_status-status_of (is_access_forbidden e) e.kind)
