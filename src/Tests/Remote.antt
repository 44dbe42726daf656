-- ===== src/Tests/Remote.antt =====
-- The theorems about the server's configuration, its answers, and repeated calls, at concrete inputs.
use plasmite.Prelude.{
  ℕ, zero, suc, ◌≡◌, refl, arith, Bool, true, false, none, some, String, List, [], ◌∷◌,
}
use plasmite.Error.{Error, Result, ok, err, ErrorKind, failure}
use plasmite.Cursor.{FrameRef}
use plasmite.Ingest.{Reader, message_or}
use plasmite.Ingest.Jsonl.{concat}
use plasmite.Wire.Errors.{error_response, parse_error_response}
use plasmite.Wire.Errors.Kept.{read_back, of_status, parse_error_response_lem}
use plasmite.Wire.Frames.{encode_lite3_stream_frame, next_frame}
use plasmite.Wire.Frames.Carried.{next_frame-encode}
use plasmite.Mcp.Json.{Value}
use plasmite.Mcp.Dispatch.Access.{AccessMode, allows_read, allows_write}
use plasmite.Serve.{ServeConfig, validate_config}
use plasmite.Serve.Handlers.{Client, Response, Headers, AppState, Request, handle_request}
use plasmite.Serve.Handlers.Guarded.{Guarded, handle_request_lem}
use plasmite.Serve.Safe.{IsSafe, validate_config-IsSafe}
use plasmite.Retry.{RetryConfig, retry_with_config}
use plasmite.Retry.Ends.{Retried, retry_with_config_lem}

abbrev busy_error : Error
busy_error = failure ErrorKind.busy "pool is locked"

parse_error_response_lem_example :
    let (status, body) = error_response busy_error in
    (parse_error_response status (some (read_back body))
      ≡ record busy_error { message = some (message_or "error" busy_error.message); hint = none })
    × ((parse_error_response status none).kind ≡ of_status busy_error.kind)
parse_error_response_lem_example = parse_error_response_lem busy_error

busy_status : (error_response busy_error).0 ≡ 423
unfolding error_response
busy_status = refl

abbrev two_bytes : FrameRef
two_bytes = record { flags = 0; seq = 259; timestamp_ns = 7; payload = 104 ∷ 105 ∷ [] }

abbrev two_bytes_encoded : List ℕ
two_bytes_encoded =
    0 ∷ 0 ∷ 0 ∷ 0 ∷ 0 ∷ 0 ∷ 1 ∷ 3 ∷ 0 ∷ 0 ∷ 0 ∷ 0 ∷ 0 ∷ 0 ∷ 0 ∷ 7 ∷ 0 ∷ 0 ∷ 0 ∷ 2 ∷ 104 ∷ 105 ∷ []

two_bytes_encodes : encode_lite3_stream_frame two_bytes ≡ ok two_bytes_encoded
unfolding encode_lite3_stream_frame
two_bytes_encodes = refl

-- The bytes come in three pieces, with one byte of the next frame behind them.
abbrev connection : Reader
connection = record {
  pieces =
      (0 ∷ 0 ∷ 0 ∷ 0 ∷ 0 ∷ [])
      ∷ (0 ∷ 1 ∷ 3 ∷ 0 ∷ 0 ∷ 0 ∷ 0 ∷ 0 ∷ 0 ∷ 0 ∷ 7 ∷ 0 ∷ 0 ∷ 0 ∷ 2 ∷ 104 ∷ [])
      ∷ (105 ∷ 0 ∷ [])
      ∷ [];
  fails = false;
}

next_frame-encode_example :
    (pieces : List (List ℕ)) × (next_frame (some connection)
      ≡ ok (
          some (
            record { seq = 259; timestamp_ns = 7; payload = 104 ∷ 105 ∷ [] },
            record connection { pieces = pieces },
          )))
    × (concat pieces ≡ 0 ∷ [])
next_frame-encode_example =
    next_frame-encode two_bytes two_bytes_encoded (0 ∷ []) connection (omega arith) (omega arith)
      two_bytes_encodes refl

abbrev as_given : String → Result String
as_given origin = ok origin

abbrev exposed_config : ServeConfig
exposed_config = record {
  bind_is_loopback = false;
  token = some "secret";
  cors_allowed_origins = "https://demo.example" ∷ "https://demo.example" ∷ [];
  access_mode = AccessMode.read_write;
  allow_non_loopback = true;
  insecure_no_tls = false;
  token_file_used = true;
  tls_cert = none;
  tls_key = none;
  tls_self_signed = true;
  max_body_bytes = 1_048_576;
  max_tail_timeout_ms = 30_000;
  max_concurrent_tails = 64;
}

exposed_accepted : validate_config as_given exposed_config ≡ ok ("https://demo.example" ∷ [])
unfolding validate_config allows_write
exposed_accepted = refl

validate_config-IsSafe_example : IsSafe exposed_config
validate_config-IsSafe_example =
    validate_config-IsSafe as_given exposed_config ("https://demo.example" ∷ []) exposed_accepted

-- A call that is busy as often as its state says.
abbrev busy_calls : ℕ → Result ℕ × ℕ
busy_calls zero = (ok 7, zero)
busy_calls (suc n) = (err busy_error, n)

abbrev never : Error → Bool
never e = false

abbrev no_info : ℕ → ℕ → String
no_info attempts waited = "retried"

abbrev first_text : String → String → String
first_text hint text = hint

abbrev twice : RetryConfig
twice = record { retries = 2; delay = 50 }

retry_with_config_lem_example :
    Retried never no_info first_text busy_calls twice 2
      (retry_with_config never no_info first_text busy_calls (some twice) 2)
retry_with_config_lem_example =
    retry_with_config_lem never no_info first_text busy_calls twice 2 (omega arith)

two_retries : retry_with_config never no_info first_text busy_calls (some twice) 2 ≡ (ok 7, 0)
unfolding retry_with_config
two_retries = refl

-- The state of a client is the number of messages in its one pool.
abbrev counting_client : Client ℕ ℕ (Unit {0}) ℕ
counting_client = record {
  create_pool = λ name size n. (ok 0, 0);
  pool_info = λ name n. (ok n, n);
  list_pools = λ n. (ok (n ∷ []), n);
  delete_pool = λ name n. (ok tt, 0);
  open_pool = λ name n. (ok tt, n);
  append_json_now = λ opened value tags durability n. (ok (suc n), suc n);
  append_lite3_now = λ opened payload durability n. (ok (suc n), suc n);
  get_message = λ opened seq n. (ok seq, n);
  get_lite3 = λ opened seq n. (ok (seq ∷ []), n);
  validate_bytes = λ payload. ok tt;
}

abbrev guarded_app : AppState
guarded_app = record { token = some "secret"; access_mode = AccessMode.read_only }

abbrev bearer_headers : Headers
bearer_headers = record { authorization = some (some "Bearer secret"); content_type = none }

abbrev feed_request : Request
feed_request = Request.append "demo" Value.null none none

handle_request_lem_example :
    Guarded guarded_app bearer_headers false 2
      (handle_request counting_client guarded_app bearer_headers feed_request 2)
unfolding allows_write
handle_request_lem_example =
    handle_request_lem counting_client guarded_app bearer_headers feed_request 2

fed :
    handle_request counting_client
      (record guarded_app { access_mode = AccessMode.read_write })
      bearer_headers
      feed_request
      2
    ≡ (ok (Response.message 3), 3)
unfolding handle_request allows_write
fed = refl

slash_refused :
    (handle_request counting_client guarded_app bearer_headers (Request.get "a/b" 1) 2).0 ≡ (
      let (status, body) =
        error_response (failure ErrorKind.usage "pool name must not contain path separators") in
      ok (Response.error status body))
unfolding handle_request error_response allows_read
slash_refused = refl
