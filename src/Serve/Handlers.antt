-- ===== src/Serve/Handlers.antt =====
-- src/serve.rs: the handlers of the HTTP server for pools and messages, less the tails.
-- The client that they call is an interface over its state; what axum extracts from a request comes as
-- it is, and an answer holds what its JSON is made of. A pool is referred to by its name.
pub mod Guarded
use plasmite.Prelude.{ℕ, Bool, true, false, Option, none, some, List, [], ◌∷◌, String}
use plasmite.Error.{Error, ErrorKind, Result, ok, err, panic, stuck, failure, with_hint}
use plasmite.Mcp.Json.{Value}
use plasmite.Mcp.Dispatch.Access.{AccessMode, allows_read, allows_write, denied_message}
use plasmite.Pool.{Durability}
use plasmite.Wire.Errors.{ErrorBody, error_response}
use text.Mathlib.Text.{◌==◌ as str_eq, starts_with, find?}
use Prim.Native.String.{◌++◌}

-- What a call gives, and the state of the client behind it.
abbrev pub Call : Type 0 → Type 0 → Type 0
Call H A = H → Result A × H

abbrev pub continue : {H A B : Type 0} → Result A × H → (A → Call H B) → Result B × H
continue (ok a, state) f = f a state
continue (err e, state) f = (err e, state)
continue (panic, state) f = (panic, state)
continue (stuck, state) f = (stuck, state)

infixl 5 ◌>>=◌ ◌>>◌
abbrev pub ◌>>=◌ : {H A B : Type 0} → Call H A → (A → Call H B) → Call H B
(m >>= f) state = continue (m state) f

abbrev pub ◌>>◌ : {H B : Type 0} → Call H (Unit {0}) → Call H B → Call H B
(m >> k) state = continue (m state) (λ _. k)

-- A check that does not look at the state.
abbrev pub check : {H A : Type 0} → Result A → Call H A
check r state = (r, state)

-- `LocalClient` and an open pool.
pub record Client (H I P M : Type 0) : Type 0 where
  pub create_pool : String → ℕ → Call H I
  pub pool_info : String → Call H I
  pub list_pools : Call H (List I)
  pub delete_pool : String → Call H (Unit {0})
  pub open_pool : String → Call H P
  pub append_json_now : P → Value → List String → Durability → Call H M
  pub append_lite3_now : P → List ℕ → Durability → Call H ℕ
  pub get_message : P → ℕ → Call H M
  pub get_lite3 : P → ℕ → Call H (List ℕ)
  pub validate_bytes : List ℕ → Result (Unit {0})

pub data Response (I M : Type 0) : Type 0 where
  pool : String → I → Response I M
  pools : List I → Response I M
  message : M → Response I M
  lite3 : ℕ → List ℕ → Response I M
  deleted : Response I M
  error : ℕ → ErrorBody → Response I M

-- A header that is there has no text if it is not visible ASCII.
pub record Headers : Type 0 where
  pub authorization : Option (Option String)
  pub content_type : Option (Option String)

pub record AppState : Type 0 where
  pub token : Option String
  pub access_mode : AccessMode

abbrev pub unwrap_or_default : Option String → String
unwrap_or_default none = ""
unwrap_or_default (some text) = text

abbrev pub bearer : Bool → Result (Unit {0})
bearer true = ok tt
bearer false = err (failure ErrorKind.permission "invalid bearer token")

unfoldable pub authorize : Option String → Option (Option String) → Result (Unit {0})
authorize none authorization = ok tt
authorize (some token) none = err (failure ErrorKind.permission "missing bearer token")
authorize (some token) (some value) = bearer (str_eq (unwrap_or_default value) ("Bearer " ++ token))

-- What may be done is "read" or "write", as in `denied_message`.
unfoldable pub access_error : Bool → Error
access_error reads =
    with_hint "Adjust --access to permit this operation."
      (failure ErrorKind.permission (denied_message reads))

abbrev pub ensure_access : Bool → Bool → Result (Unit {0})
ensure_access reads true = ok tt
ensure_access reads false = err (access_error reads)

unfoldable pub ensure_read_access : AccessMode → Result (Unit {0})
unfolding allows_read access_error
ensure_read_access mode = ensure_access true (allows_read mode)

unfoldable pub ensure_write_access : AccessMode → Result (Unit {0})
unfolding allows_write access_error
ensure_write_access mode = ensure_access false (allows_write mode)

abbrev pub name_unless : Option ℕ → String → Result String
name_unless none name = ok name
name_unless (some position) name =
    err (failure ErrorKind.usage "pool name must not contain path separators")

unfoldable pub pool_ref_from_request : String → Result String
pool_ref_from_request name = name_unless (find? name "/") name

abbrev pub durability_if : Bool → Durability
durability_if true = Durability.flush
durability_if false = Durability.fast

unfoldable pub durability_from_str : Option String → Durability
durability_from_str none = Durability.fast
durability_from_str (some text) = durability_if (str_eq text "flush")

abbrev pub size_or_default : Option ℕ → ℕ
size_or_default none = 1_048_576
size_or_default (some size) = size

abbrev pub tags_or_default : Option (List String) → List String
tags_or_default none = []
tags_or_default (some tags) = tags

abbrev pub lite3_type : Bool → Result (Unit {0})
lite3_type true = ok tt
lite3_type false = err (failure ErrorKind.usage "invalid content-type for lite3 append")

-- A content type is asked for its text only if there is one.
unfoldable pub check_content_type : Option (Option String) → Result (Unit {0})
check_content_type none = ok tt
check_content_type (some none) = ok tt
check_content_type (some (some text)) = lite3_type (starts_with text "application/x-plasmite-lite3")

unfoldable pub check_payload : List ℕ → Result (Unit {0})
check_payload [] = err (failure ErrorKind.usage "lite3 payload is required")
check_payload (byte ∷ bytes) = ok tt

module _ {H I P M : Type 0} (client : Client H I P M) (app : AppState) (headers : Headers) where
  unfoldable pub create_pool : String → Option ℕ → Call H (Response I M)
  unfolding authorize ensure_write_access pool_ref_from_request
  create_pool name size_bytes = do
    check (authorize app.token headers.authorization)
    check (ensure_write_access app.access_mode)
    pool_ref ← check (pool_ref_from_request name)
    info ← client.create_pool pool_ref (size_or_default size_bytes)
    check (ok (pool name info))

  -- `open_pool` and `pool_info` differ in where the name stands in the request.
  unfoldable pub pool_info : String → Call H (Response I M)
  unfolding authorize ensure_read_access pool_ref_from_request
  pool_info name = do
    check (authorize app.token headers.authorization)
    check (ensure_read_access app.access_mode)
    pool_ref ← check (pool_ref_from_request name)
    info ← client.pool_info pool_ref
    check (ok (pool name info))

  unfoldable pub list_pools : Call H (Response I M)
  unfolding authorize ensure_read_access
  list_pools = do
    check (authorize app.token headers.authorization)
    check (ensure_read_access app.access_mode)
    infos ← client.list_pools
    check (ok (pools infos))

  unfoldable pub delete_pool : String → Call H (Response I M)
  unfolding authorize ensure_write_access pool_ref_from_request
  delete_pool name = do
    check (authorize app.token headers.authorization)
    check (ensure_write_access app.access_mode)
    pool_ref ← check (pool_ref_from_request name)
    client.delete_pool pool_ref
    check (ok deleted)

  unfoldable pub append_message :
      String → Value → Option (List String) → Option String → Call H (Response I M)
  unfolding authorize ensure_write_access pool_ref_from_request durability_from_str
  append_message name data_value tags durability = do
    check (authorize app.token headers.authorization)
    check (ensure_write_access app.access_mode)
    pool_ref ← check (pool_ref_from_request name)
    opened ← client.open_pool pool_ref
    appended ←
        client.append_json_now opened data_value (tags_or_default tags)
          (durability_from_str durability)
    check (ok (message appended))

  unfoldable pub append_lite3 : String → List ℕ → Option String → Call H (Response I M)
  unfolding authorize ensure_write_access check_content_type check_payload pool_ref_from_request
      durability_from_str
  append_lite3 name payload durability = do
    check (authorize app.token headers.authorization)
    check (ensure_write_access app.access_mode)
    check (check_content_type headers.content_type)
    check (check_payload payload)
    pool_ref ← check (pool_ref_from_request name)
    opened ← client.open_pool pool_ref
    seq ← client.append_lite3_now opened payload (durability_from_str durability)
    appended ← client.get_message opened seq
    check (ok (message appended))

  unfoldable pub get_message : String → ℕ → Call H (Response I M)
  unfolding authorize ensure_read_access pool_ref_from_request
  get_message name seq = do
    check (authorize app.token headers.authorization)
    check (ensure_read_access app.access_mode)
    pool_ref ← check (pool_ref_from_request name)
    opened ← client.open_pool pool_ref
    found ← client.get_message opened seq
    check (ok (message found))

  unfoldable pub get_lite3 : String → ℕ → Call H (Response I M)
  unfolding authorize ensure_read_access pool_ref_from_request
  get_lite3 name seq = do
    check (authorize app.token headers.authorization)
    check (ensure_read_access app.access_mode)
    pool_ref ← check (pool_ref_from_request name)
    opened ← client.open_pool pool_ref
    payload ← client.get_lite3 opened seq
    check (client.validate_bytes payload)
    check (ok (lite3 seq payload))

-- The routes of the server, with what axum takes from the request.
pub data Request : Type 0 where
  create : String → Option ℕ → Request
  info : String → Request
  list : Request
  delete : String → Request
  append : String → Value → Option (List String) → Option String → Request
  append_bytes : String → List ℕ → Option String → Request
  get : String → ℕ → Request
  get_bytes : String → ℕ → Request

-- Every handler answers an error with `error_response`.
unfoldable pub respond : {H I M : Type 0} → Result (Response I M) × H → Result (Response I M) × H
unfolding error_response
respond (err e, state) = let (status, body) = error_response e in (ok (error status body), state)
respond (ok response, state) = (ok response, state)
respond (panic, state) = (panic, state)
respond (stuck, state) = (stuck, state)

module _ {H I P M : Type 0} (client : Client H I P M) (app : AppState) (headers : Headers) where
  unfoldable pub route : Request → Call H (Response I M)
  unfolding create_pool pool_info list_pools delete_pool append_message append_lite3 get_message
      get_lite3
  route (Request.create name size) = create_pool client app headers name size
  route (Request.info name) = pool_info client app headers name
  route Request.list = list_pools client app headers
  route (Request.delete name) = delete_pool client app headers name
  route (Request.append name value tags durability) =
      append_message client app headers name value tags durability
  route (Request.append_bytes name payload durability) =
      append_lite3 client app headers name payload durability
  route (Request.get name seq) = get_message client app headers name seq
  route (Request.get_bytes name seq) = get_lite3 client app headers name seq

  unfoldable pub handle_request : Request → Call H (Response I M)
  unfolding route respond
  handle_request request state = respond (route request state)
