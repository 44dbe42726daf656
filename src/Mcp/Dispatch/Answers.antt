-- ===== src/Mcp/Dispatch/Answers.antt =====
-- Which values get an answer, and with which id.
use plasmite.Prelude.{
  ◌≡◌, refl, sym, ap, ◌⊎◌, inl, inr, Bool, true, false, not, Option, none, some, String,
  if◌then◌else◌,
}
use text.Mathlib.Text.{◌==◌ as str_eq}
use plasmite.Mcp.Json.{Value, Fields, get, as_str}
use plasmite.Mcp.Rpc.{
  JsonRpcId, JsonRpcRequest, JsonRpcResponse, JsonRpcError, response_error, json_rpc_version,
  DispatchOutcome, Reply, done, failed, ◌>>=◌,
}
use plasmite.Mcp.Request.{
  parse_jsonrpc_request, parse_fields, parse_jsonrpc_id, id_of_field, or_null_id, text_or, map_err,
}
use plasmite.Mcp.Dispatch.{
  McpHandler, ServerMetadata, ToolCallResult, route_method, outcome_for, dispatch_request,
  dispatch_parsed, dispatch_value,
}

-- A version, and a result or an error.
abbrev pub IsAnswer : JsonRpcResponse → Type 0
IsAnswer r =
    (r.jsonrpc ≡ json_rpc_version)
    × (((value : Value) × (r.result ≡ some value) × (r.error ≡ none))
        ⊎ ((e : JsonRpcError) × (r.result ≡ none) × (r.error ≡ some e)))

-- The id that a value names, or null where it names none that is valid.
abbrev pub id_or_null : Reply JsonRpcError JsonRpcId → JsonRpcId
id_or_null (done id) = id
id_or_null (failed e) = JsonRpcId.null

abbrev pub id_named : Option Value → JsonRpcId
id_named none = JsonRpcId.null
id_named (some raw_id) = id_or_null (parse_jsonrpc_id raw_id)

abbrev pub declared_id : Value → JsonRpcId
declared_id (Value.object fields) = id_named (get "id" fields)
declared_id Value.null = JsonRpcId.null
declared_id (Value.bool b) = JsonRpcId.null
declared_id (Value.number n) = JsonRpcId.null
declared_id (Value.string text) = JsonRpcId.null
declared_id (Value.array items) = JsonRpcId.null

-- Without an answer, the value is an object that has no id.
abbrev pub Answered : Value → DispatchOutcome → Type 0
Answered value (DispatchOutcome.response r) = IsAnswer r × (r.id ≡ declared_id value)
Answered value DispatchOutcome.no_response =
    (fields : Fields) × (value ≡ Value.object fields) × (get "id" fields ≡ none)

-- What the fields' id says of a request, or of the response that refuses it.
abbrev Names : Option Value → Option JsonRpcId → Type 0
Names raw id = ((raw ≡ none) × (id ≡ none)) ⊎ ((j : JsonRpcId) × (id ≡ some j) × (id_named raw ≡ j))

abbrev Refuses : Option Value → JsonRpcResponse → Type 0
Refuses raw r = IsAnswer r × (r.id ≡ id_named raw)

abbrev Read : Option Value → Reply JsonRpcResponse (Option JsonRpcId) → Type 0
Read raw (done id) = Names raw id
Read raw (failed r) = Refuses raw r

abbrev Parsed : Option Value → Reply JsonRpcResponse JsonRpcRequest → Type 0
Parsed raw (done request) = Names raw request.id
Parsed raw (failed r) = Refuses raw r

refused : (id : JsonRpcId) (e : JsonRpcError) → IsAnswer (response_error id e)
refused id e = (refl, inr (e, refl, refl))

id_of_field-Read : (raw : Option Value) → Read raw (id_of_field raw)
unfolding id_of_field
id_of_field-Read none = inl (refl, refl)
id_of_field-Read (some raw_id) = by_id (parse_jsonrpc_id raw_id) refl
  where
    by_id :
        (r : Reply JsonRpcError JsonRpcId)
        → r ≡ parse_jsonrpc_id raw_id
        → Read (some raw_id) (map_err (response_error JsonRpcId.null) r >>= λ id. done (some id))
    by_id (done id) e = inr (id, refl, ap id_or_null (sym e))
    by_id (failed d) e = (refused JsonRpcId.null d, ap id_or_null e)

named : (raw : Option Value) (id : Option JsonRpcId) → Names raw id → or_null_id id ≡ id_named raw
named raw none (inl (no_raw, no_id)) = ap id_named (sym no_raw)
named raw none (inr (j, e, same)) = cc
named raw (some id) (inl (no_raw, no_id)) = cc
named raw (some id) (inr (j, e, same)) = cc

module _ (raw : Option Value) where
  >>=-Parsed :
      (r : Reply JsonRpcResponse (Option JsonRpcId))
      (f : Option JsonRpcId → Reply JsonRpcResponse JsonRpcRequest)
      → Read raw r
      → ((id : Option JsonRpcId) → Names raw id → Parsed raw (f id))
      → Parsed raw (r >>= f)
  >>=-Parsed (done id) f h k = k id h
  >>=-Parsed (failed r) f h k = h

  module _ (id : Option JsonRpcId) (names : Names raw id) where
    refusal : (e : JsonRpcError) → Parsed raw (failed (response_error (or_null_id id) e))
    refusal e = (refused (or_null_id id) e, named raw id names)

    text_or-Parsed :
        (message : String) (o : Option String) (f : String → Reply JsonRpcResponse JsonRpcRequest)
        → ((text : String) → Parsed raw (f text))
        → Parsed raw (text_or (or_null_id id) message o >>= f)
    text_or-Parsed message none f k = refusal _
    text_or-Parsed message (some text) f k = k text

    if-Parsed :
        (b : Bool) (x y : Reply JsonRpcResponse JsonRpcRequest)
        → Parsed raw x
        → Parsed raw y
        → Parsed raw (if b then x else y)
    if-Parsed true x y h k = h
    if-Parsed false x y h k = k

parse_fields-Parsed : (fields : Fields) → Parsed (get "id" fields) (parse_fields fields)
unfolding parse_fields
parse_fields-Parsed fields =
    >>=-Parsed (get "id" fields) (id_of_field (get "id" fields)) _
      (id_of_field-Read (get "id" fields))
      (λ id names.
        text_or-Parsed (get "id" fields) id names "missing jsonrpc field"
          (as_str (get "jsonrpc" fields)) _
          (λ jsonrpc.
            if-Parsed (get "id" fields) id names (not (str_eq jsonrpc json_rpc_version)) _ _
              (refusal (get "id" fields) id names _)
              (text_or-Parsed (get "id" fields) id names "missing method field"
                (as_str (get "method" fields)) _ (λ method. names))))

module _ {H R : Type 0} (result_json : ToolCallResult → Option Value)
    (resource_json : R → Option Value) (metadata : ServerMetadata) (handler : McpHandler H R) where
  outcome_for-Answered :
      (fields : Fields) (id : Option JsonRpcId) (result : Reply JsonRpcError Value)
      → Names (get "id" fields) id
      → Answered
          (Value.object fields)
          (outcome_for result_json resource_json metadata handler id result)
  unfolding outcome_for
  outcome_for-Answered fields none result (inl (no_raw, no_id)) = (fields, refl, no_raw)
  outcome_for-Answered fields none result (inr (j, e, same)) = cc
  outcome_for-Answered fields (some id) (done value) names =
      ((refl, inl (value, refl, refl)), named (get "id" fields) (some id) names)
  outcome_for-Answered fields (some id) (failed e) names =
      ((refl, inr (e, refl, refl)), named (get "id" fields) (some id) names)

  dispatch_parsed-Answered :
      (fields : Fields) (r : Reply JsonRpcResponse JsonRpcRequest) (state : H)
      → Parsed (get "id" fields) r
      → Answered
          (Value.object fields)
          (dispatch_parsed result_json resource_json metadata handler r state).0
  unfolding dispatch_parsed dispatch_request
  dispatch_parsed-Answered fields (done request) state parsed =
      outcome_for-Answered fields request.id
        (route_method result_json resource_json metadata handler request state).0 parsed
  dispatch_parsed-Answered fields (failed r) state parsed = parsed

-- Whatever a handler does: the answer to a JSON value is a response of version 2.0 with a result or an error,
-- and with the id that the value names, or null where it names none that is valid. Only an object
-- without an id gets no answer.
pub dispatch_value_lem :
    {H R : Type 0} (result_json : ToolCallResult → Option Value) (resource_json : R → Option Value)
    (metadata : ServerMetadata) (handler : McpHandler H R) (value : Value) (state : H)
    → Answered value (dispatch_value result_json resource_json metadata handler value state).0
unfolding dispatch_value parse_jsonrpc_request dispatch_parsed
dispatch_value_lem result_json resource_json metadata handler (Value.object fields) state =
    dispatch_parsed-Answered result_json resource_json metadata handler fields (parse_fields fields)
      state (parse_fields-Parsed fields)
dispatch_value_lem result_json resource_json metadata handler Value.null state =
    (refused JsonRpcId.null _, refl)
dispatch_value_lem result_json resource_json metadata handler (Value.bool b) state =
    (refused JsonRpcId.null _, refl)
dispatch_value_lem result_json resource_json metadata handler (Value.number n) state =
    (refused JsonRpcId.null _, refl)
dispatch_value_lem result_json resource_json metadata handler (Value.string text) state =
    (refused JsonRpcId.null _, refl)
dispatch_value_lem result_json resource_json metadata handler (Value.array items) state =
    (refused JsonRpcId.null _, refl)
