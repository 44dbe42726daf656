-- ===== src/Serve/Safe.antt =====
-- What a configuration has that the server starts with.
use plasmite.Prelude.{
  ℕ, ◌<◌, ◌≡◌, ◌⊎◌, inl, inr, refl, arith, Bool, true, false, List, String, not, ◌==◌, ◌&&◌, ◌||◌,
}
use plasmite.Error.{Result, ok}
use plasmite.Error.Laws.{>>=-eq-ok}
use plasmite.Mcp.Dispatch.Access.{allows_write}
use plasmite.Serve.{
  ServeConfig, is_some, differ, ensure_hinted, tls_is_configured, normalize_cors_origins,
  check_bind, check_tls_pair, check_self_signed, check_positive, check_platform, check_token,
  check_write_tls, validate_config,
}

-- An address that is not loopback is allowed by a flag; one that can be written to also has a token
-- from a file, and TLS unless another flag does without it.
pub record IsSafe (config : ServeConfig) : Type 0 where
  pub bind_allowed : (config.bind_is_loopback ≡ true) ⊎ (config.allow_non_loopback ≡ true)
  pub write_guarded :
      (config.bind_is_loopback ≡ true)
      ⊎ (allows_write config.access_mode ≡ false)
      ⊎ ((config.token_file_used ≡ true)
          × ((config.insecure_no_tls ≡ true) ⊎ (tls_is_configured config ≡ true)))
  pub tls_paired : is_some config.tls_cert ≡ is_some config.tls_key
  pub one_certificate : (config.tls_self_signed ≡ false) ⊎ (is_some config.tls_cert ≡ false)
  pub body_bounded : 0 < config.max_body_bytes
  pub timeout_positive : 0 < config.max_tail_timeout_ms
  pub tails_positive : 0 < config.max_concurrent_tails

bind_of :
    (loopback allowed : Bool)
    → not (not loopback && not allowed) ≡ true
    → (loopback ≡ true) ⊎ (allowed ≡ true)
bind_of true allowed e = inl refl
bind_of false true e = inr refl
bind_of false false e = cc

pair_of : (cert key : Bool) → not (differ cert key) ≡ true → cert ≡ key
pair_of true true e = refl
pair_of true false e = cc
pair_of false true e = cc
pair_of false false e = refl

alone_of :
    (self_signed cert key : Bool)
    → not (self_signed && (cert || key)) ≡ true
    → (self_signed ≡ false) ⊎ (cert ≡ false)
alone_of false cert key e = inl refl
alone_of true false key e = inr refl
alone_of true true key e = cc

guard_of :
    (loopback writes token insecure tls : Bool)
    → not ((not loopback && writes) && not token) ≡ true
    → not ((not loopback && writes) && (not insecure && not tls)) ≡ true
    → (loopback ≡ true) ⊎ (writes ≡ false) ⊎ ((token ≡ true) × ((insecure ≡ true) ⊎ (tls ≡ true)))
guard_of true writes token insecure tls e e' = inl refl
guard_of false false token insecure tls e e' = inr (inl refl)
guard_of false true false insecure tls e e' = cc
guard_of false true true true tls e e' = inr (inr (refl, inl refl))
guard_of false true true false true e e' = inr (inr (refl, inr refl))
guard_of false true true false false e e' = cc

ensure_hinted-true : (b : Bool) (t u : String) → ensure_hinted b t u ≡ ok tt → b ≡ true
ensure_hinted-true true t u e = refl
ensure_hinted-true false t u e = cc

positive : (n : ℕ) (message hint : String) → check_positive n message hint ≡ ok tt → 0 < n
unfolding check_positive
positive n message hint e =
    let some_n = ensure_hinted-true (not (n == 0)) message hint e in ground (arith, some_n)

-- A configuration that is accepted is safe.
pub validate_config-IsSafe :
    (normalize_cors_origin : String → Result String) (config : ServeConfig) (origins : List String)
    → validate_config normalize_cors_origin config ≡ ok origins
    → IsSafe config
unfolding validate_config
validate_config-IsSafe normalize config origins accepted =
    let (_, _, e0) =
      >>=-eq-ok (normalize_cors_origins normalize config.cors_allowed_origins) _ accepted in
    let (_, bind, e1) = >>=-eq-ok (check_bind config) _ e0 in
    let (_, paired, e2) = >>=-eq-ok (check_tls_pair config) _ e1 in
    let (_, alone, e3) = >>=-eq-ok (check_self_signed config) _ e2 in
    let (_, body, e4) =
      >>=-eq-ok
        (check_positive config.max_body_bytes "--max-body-bytes must be greater than zero"
          "Use a positive value like 1048576.")
        _ e3 in
    let (_, timeout, e5) =
      >>=-eq-ok
        (check_positive config.max_tail_timeout_ms "--max-tail-timeout-ms must be greater than zero"
          "Use a positive value like 30000.")
        _ e4 in
    let (_, tails, e6) =
      >>=-eq-ok
        (check_positive config.max_concurrent_tails
          "--max-tail-concurrency must be greater than zero" "Use a positive value like 64.")
        _ e5 in
    let (_, platform, e7) = >>=-eq-ok (check_platform config) _ e6 in
    let (_, token, e8) = >>=-eq-ok (check_token config) _ e7 in
    let (_, tls, e9) = >>=-eq-ok (check_write_tls config) _ e8 in
    record {
      bind_allowed =
          bind_of config.bind_is_loopback config.allow_non_loopback (ensure_hinted-true _ _ _ bind);
      write_guarded =
          guard_of config.bind_is_loopback (allows_write config.access_mode) config.token_file_used
            config.insecure_no_tls (tls_is_configured config) (ensure_hinted-true _ _ _ token)
            (ensure_hinted-true _ _ _ tls);
      tls_paired =
          pair_of (is_some config.tls_cert) (is_some config.tls_key)
            (ensure_hinted-true _ _ _ paired);
      one_certificate =
          alone_of config.tls_self_signed (is_some config.tls_cert) (is_some config.tls_key)
            (ensure_hinted-true _ _ _ alone);
      body_bounded = positive _ _ _ body;
      timeout_positive = positive _ _ _ timeout;
      tails_positive = positive _ _ _ tails;
    }
