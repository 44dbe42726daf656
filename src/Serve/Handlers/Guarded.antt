-- ===== src/Serve/Handlers/Guarded.antt =====
-- What a request needs to reach the client of the HTTP server.
use plasmite.Prelude.{
  ℕ, ◌≡◌, ◌∙◌, sym, ap, subst, refl, ◌⊎◌, inl, inr, Bool, true, false, Bool-cases, Option, none,
  some, String,
}
use plasmite.Error.{ErrorKind, Result, ok, err, failure}
use plasmite.Mcp.Dispatch.Access.{AccessMode, allows_read, allows_write}
use plasmite.Ingest.{kind_name}
use plasmite.Serve.Handlers.{
  Call, ◌>>◌, check, Client, Response, Headers, AppState, unwrap_or_default, bearer, authorize,
  access_error, ensure_access, ensure_read_access, ensure_write_access, Request, respond,
  handle_request,
}
use plasmite.Wire.Errors.{ErrorBody, error_response, status_of, is_access_forbidden, error_body}
use mathlib.Core.Option.{some_inj}
use text.Mathlib.Text.{◌==◌ as str_eq}
use text.Mathlib.TextEquality.{eq_iff}
use Prim.Native.String.{◌++◌}

-- Where the server has a token, the request has it in its header.
pub data IsAuthorized (token : Option String) (authorization : Option (Option String))
    : Type 0 where
  open_server : token ≡ none → IsAuthorized token authorization
  with_token :
      (secret : String) (value : Option String)
      → token ≡ some secret
      → authorization ≡ some value
      → unwrap_or_default value ≡ "Bearer " ++ secret
      → IsAuthorized token authorization

-- The requests that a mode lets in.
abbrev pub is_allowed : AccessMode → Request → Bool
is_allowed mode (Request.create name size) = allows_write mode
is_allowed mode (Request.info name) = allows_read mode
is_allowed mode Request.list = allows_read mode
is_allowed mode (Request.delete name) = allows_write mode
is_allowed mode (Request.append name value tags durability) = allows_write mode
is_allowed mode (Request.append_bytes name payload durability) = allows_write mode
is_allowed mode (Request.get name seq) = allows_read mode
is_allowed mode (Request.get_bytes name seq) = allows_read mode

abbrev pub Refused : {H I M : Type 0} → ℕ → H → Result (Response I M) × H → Type 0
Refused {I = I} {M = M} status state answer =
    (body : ErrorBody) × (answer ≡ (ok (Response.error status body), state))
    × (body.kind ≡ "Permission")

module _ {H I M : Type 0} (app : AppState) (headers : Headers) where
  abbrev pub Guarded : Bool → H → Result (Response I M) × H → Type 0
  Guarded allowed state answer =
      (IsAuthorized app.token headers.authorization × (allowed ≡ true))
      ⊎ (¬ IsAuthorized app.token headers.authorization × Refused 401 state answer)
      ⊎ (IsAuthorized app.token headers.authorization
          × (allowed ≡ false)
          × Refused 403 state answer)

missing : (secret : String) → ¬ IsAuthorized (some secret) none
missing secret (open_server e) = cc
missing secret (with_token secret' value e e' e'') = cc

wrong :
    (secret : String) (value : Option String)
    → ¬ (unwrap_or_default value ≡ "Bearer " ++ secret)
    → ¬ IsAuthorized (some secret) (some value)
wrong secret value other (open_server e) = cc
wrong secret value other (with_token secret' value' e e' e'') =
    other
      (ap unwrap_or_default (some_inj.0 e') ∙ e'' ∙ ap (λ s. "Bearer " ++ s) (sym (some_inj.0 e)))

abbrev refusal : Bool → String
refusal false = "missing bearer token"
refusal true = "invalid bearer token"

-- What the first check says.
Checked : Option String → Option (Option String) → Type 0
unfolding authorize
Checked token authorization =
    (IsAuthorized token authorization × (authorize token authorization ≡ ok tt))
    ⊎ (¬ IsAuthorized token authorization
        × ((present : Bool) × (authorize token authorization
              ≡ err (failure ErrorKind.permission (refusal present)))))

authorize-Checked :
    (token : Option String) (authorization : Option (Option String)) → Checked token authorization
unfolding Checked authorize
authorize-Checked none authorization = inl (open_server refl, refl)
authorize-Checked (some secret) none = inr (missing secret, (false, refl))
authorize-Checked (some secret) (some value) =
    let same = eq_iff (unwrap_or_default value) ("Bearer " ++ secret) in
    elim (Bool-cases (str_eq (unwrap_or_default value) ("Bearer " ++ secret))) [
      | inl equal ↦ inl (with_token secret value refl refl (same.0 equal), ap bearer equal)
      | inr differs ↦
          inr (wrong secret value (λ e. let equal = same.1 e in cc), (true, ap bearer differs))
    ]

module _ {H I M : Type 0} (app : AppState) (headers : Headers) where
  -- A handler behind its two checks, of which the first gives `r`.
  abbrev behind :
      Result (Unit {0}) → Bool → Bool → Call H (Response I M) → H → Result (Response I M) × H
  behind r reads allowed rest state =
      respond ((check r >> (check (ensure_access reads allowed) >> rest)) state)

  forbids :
      (reads : Bool) (rest : Call H (Response I M)) (state : H)
      → Refused 403 state (behind (ok tt) reads false rest state)
  unfolding respond access_error error_response status_of is_access_forbidden error_body kind_name
  forbids true rest state = (_, refl, refl)
  forbids false rest state = (_, refl, refl)

  rejects :
      (present reads allowed : Bool) (rest : Call H (Response I M)) (state : H)
      → Refused 401 state
          (behind (err (failure ErrorKind.permission (refusal present))) reads allowed rest state)
  unfolding respond error_response status_of is_access_forbidden error_body kind_name
  rejects true reads allowed rest state = (_, refl, refl)
  rejects false reads allowed rest state = (_, refl, refl)

  let_in :
      (allowed reads : Bool) (rest : Call H (Response I M)) (state : H)
      → IsAuthorized app.token headers.authorization
      → Guarded app headers allowed state (behind (ok tt) reads allowed rest state)
  let_in true reads rest state authorized = inl (authorized, refl)
  let_in false reads rest state authorized = inr (inr (authorized, refl, forbids reads rest state))

  behind-Guarded :
      (reads allowed : Bool) (rest : Call H (Response I M)) (state : H)
      → Guarded app headers allowed state
          (behind (authorize app.token headers.authorization) reads allowed rest state)
  unfolding Checked
  behind-Guarded reads allowed rest state =
      elim (authorize-Checked app.token headers.authorization) [
        | inl (authorized, passes) ↦
            subst (λ r. Guarded app headers allowed state (behind r reads allowed rest state))
              (sym passes) (let_in allowed reads rest state authorized)
        | inr (refused, (present, fails)) ↦ inr (
            inl (
              refused,
              subst (λ r. Refused 401 state (behind r reads allowed rest state)) (sym fails)
                  (rejects present reads allowed rest state),
            ))
      ]

-- Whatever the client does: only a request that is authorized and that the mode lets in reaches it; any
-- other is answered with a permission error, of status 401 where it is not authorized and of 403 where
-- the mode keeps it out, and leaves the client's state as it is.
pub handle_request_lem :
    {H I P M : Type 0} (client : Client H I P M) (app : AppState) (headers : Headers)
    (request : Request) (state : H)
    → Guarded app headers
        (is_allowed app.access_mode request)
        state
        (handle_request client app headers request state)
unfolding handle_request ensure_read_access ensure_write_access
handle_request_lem client app headers (Request.create name size) state =
    behind-Guarded app headers false (allows_write app.access_mode) _ state
handle_request_lem client app headers (Request.info name) state =
    behind-Guarded app headers true (allows_read app.access_mode) _ state
handle_request_lem client app headers Request.list state =
    behind-Guarded app headers true (allows_read app.access_mode) _ state
handle_request_lem client app headers (Request.delete name) state =
    behind-Guarded app headers false (allows_write app.access_mode) _ state
handle_request_lem client app headers (Request.append name value tags durability) state =
    behind-Guarded app headers false (allows_write app.access_mode) _ state
handle_request_lem client app headers (Request.append_bytes name payload durability) state =
    behind-Guarded app headers false (allows_write app.access_mode) _ state
handle_request_lem client app headers (Request.get name seq) state =
    behind-Guarded app headers true (allows_read app.access_mode) _ state
handle_request_lem client app headers (Request.get_bytes name seq) state =
    behind-Guarded app headers true (allows_read app.access_mode) _ state
