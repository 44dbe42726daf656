-- ===== src/Serve.antt =====
-- src/serve.rs: the checks of the configuration before the HTTP server starts.
-- The parsing of a CORS origin by the url crate is a parameter, and an address is whether it is loopback.
pub mod Handlers
pub mod Safe
use plasmite.Prelude.{
  ℕ, ◌-◌, ◌^◌, Bool, true, false, Option, none, some, List, [], ◌∷◌, ◌++◌, String, not, leb, ◌==◌,
  ◌&&◌, ◌||◌, if◌then◌else◌,
}
use plasmite.Error.{Error, ErrorKind, Result, ok, err, failure, with_hint, ◌>>=◌, ◌>>◌}
use plasmite.Mcp.Dispatch.Access.{AccessMode, allows_write}
use text.Mathlib.Text.{◌==◌ as str_eq}

-- The configuration, less the pool directory and the certificate that is made on the way.
pub record ServeConfig : Type 0 where
  pub bind_is_loopback : Bool
  pub token : Option String
  pub cors_allowed_origins : List String
  pub access_mode : AccessMode
  pub allow_non_loopback : Bool
  pub insecure_no_tls : Bool
  pub token_file_used : Bool
  pub tls_cert : Option String
  pub tls_key : Option String
  pub tls_self_signed : Bool
  pub max_body_bytes : ℕ
  pub max_tail_timeout_ms : ℕ
  pub max_concurrent_tails : ℕ

abbrev pub is_some : Option String → Bool
is_some none = false
is_some (some text) = true

-- `a != b`
abbrev pub differ : Bool → Bool → Bool
differ true b = not b
differ false b = b

unfoldable pub tls_is_configured : ServeConfig → Bool
tls_is_configured config =
    config.tls_self_signed || (is_some config.tls_cert && is_some config.tls_key)

-- `if !test { return Err(usage error) }`
abbrev pub ensure_hinted : Bool → String → String → Result (Unit {0})
ensure_hinted true message hint = ok tt
ensure_hinted false message hint = err (with_hint hint (failure ErrorKind.usage message))

unfoldable pub check_bind : ServeConfig → Result (Unit {0})
check_bind config =
    ensure_hinted (not (not config.bind_is_loopback && not config.allow_non_loopback))
      "non-loopback bind requires explicit opt-in"
      "Re-run with --allow-non-loopback or use a loopback address."

unfoldable pub check_tls_pair : ServeConfig → Result (Unit {0})
check_tls_pair config =
    ensure_hinted (not (differ (is_some config.tls_cert) (is_some config.tls_key)))
      "TLS requires both --tls-cert and --tls-key"
      "Provide both paths or run `plasmite serve init` to generate matching TLS artifacts."

unfoldable pub check_self_signed : ServeConfig → Result (Unit {0})
check_self_signed config =
    ensure_hinted
      (not (config.tls_self_signed && (is_some config.tls_cert || is_some config.tls_key)))
      "--tls-self-signed cannot be combined with --tls-cert/--tls-key"
      "Use either --tls-self-signed or provide certificate paths; `plasmite serve init` can generate cert/key files."

-- A limit of 0.
unfoldable pub check_positive : ℕ → String → String → Result (Unit {0})
check_positive limit message hint = ensure_hinted (not (limit == 0)) message hint

unfoldable pub check_platform : ServeConfig → Result (Unit {0})
check_platform config =
    ensure_hinted (leb config.max_body_bytes (2 ^ 64 - 1))
      "--max-body-bytes exceeds platform limits" "Use a smaller value that fits in memory."

abbrev pub exposes_writes : ServeConfig → Bool
exposes_writes config = not config.bind_is_loopback && allows_write config.access_mode

unfoldable pub check_token : ServeConfig → Result (Unit {0})
check_token config =
    ensure_hinted (not (exposes_writes config && not config.token_file_used))
      "non-loopback write requires --token-file"
      "Run `plasmite serve init` and use the generated --token-file for non-loopback write access."

unfoldable pub check_write_tls : ServeConfig → Result (Unit {0})
unfolding tls_is_configured
check_write_tls config =
    ensure_hinted
      (not
        (exposes_writes config && (not config.insecure_no_tls && not (tls_is_configured config))))
      "non-loopback write requires TLS"
      "Run `plasmite serve init` for cert/key artifacts, or use --tls-cert/--tls-key, --tls-self-signed, or --insecure-no-tls."

abbrev pub contains : String → List String → Bool
contains text [] = false
contains text (entry ∷ entries) = str_eq text entry || contains text entries

module _ (normalize_cors_origin : String → Result String) where
  -- `seen` holds what `normalized` does, in the order of insertion.
  unfoldable pub normalize_from : List String → List String → Result (List String)
  normalize_from normalized [] = ok normalized
  normalize_from normalized (entry ∷ raw) = do
    origin ← normalize_cors_origin entry
    normalize_from (if contains origin normalized then normalized else normalized ++ (origin ∷ []))
        raw

  unfoldable pub normalize_cors_origins : List String → Result (List String)
  unfolding normalize_from
  normalize_cors_origins raw = normalize_from [] raw

  unfoldable pub validate_config : ServeConfig → Result (List String)
  unfolding normalize_cors_origins check_bind check_tls_pair check_self_signed check_positive
      check_platform check_token check_write_tls
  validate_config config = do
    cors_allowed_origins ← normalize_cors_origins config.cors_allowed_origins
    check_bind config
    check_tls_pair config
    check_self_signed config
    check_positive config.max_body_bytes "--max-body-bytes must be greater than zero"
        "Use a positive value like 1048576."
    check_positive config.max_tail_timeout_ms "--max-tail-timeout-ms must be greater than zero"
        "Use a positive value like 30000."
    check_positive config.max_concurrent_tails "--max-tail-concurrency must be greater than zero"
        "Use a positive value like 64."
    check_platform config
    check_token config
    check_write_tls config
    ok cors_allowed_origins
