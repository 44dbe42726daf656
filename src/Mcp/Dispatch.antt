-- ===== src/Mcp/Dispatch.antt =====
-- src/mcp.rs: the dispatch of a request to a handler.
-- A handler is an interface; it keeps a state, such as the pool directory. How serde writes its results as
-- JSON is a parameter, and the name of an unknown method is left out of its error.
pub mod Answers
pub mod Access
pub mod ReadOnly
use plasmite.Prelude.{Bool, true, false, Option, none, some, List, [], ◌∷◌, String, if◌then◌else◌}
use plasmite.Mcp.Json.{Value, Fields}
use plasmite.Mcp.Rpc.{
  JsonRpcId, JsonRpcRequest, JsonRpcResponse, JsonRpcError, ErrorCode, response_error,
  response_success, rpc_error, DispatchOutcome, ToolCallRequest, ResourceReadRequest, Reply, done,
  failed, ◌>>=◌, ◌>>◌,
}
use plasmite.Mcp.Request.{
  parse_jsonrpc_request, require_object_params, ensure_object_or_absent, parse_tool_call_params,
  parse_resource_read_params,
}
use text.Mathlib.Text.{◌==◌ as str_eq}

pub record ServerMetadata : Type 0 where
  pub name : String
  pub version : String
  pub protocol_version : String

pub record ToolCallResult : Type 0 where
  pub content : List Value
  pub is_error : Bool
  pub structured_content : Option Value

-- `execution_error_with_structured`
abbrev pub execution_error : String → Option Value → ToolCallResult
execution_error message structured_content = record {
  content =
      Value.object (
        Fields.field "type" (Value.string "text")
          (Fields.field "text" (Value.string message) Fields.end))
      ∷ [];
  is_error = true;
  structured_content = structured_content;
}

-- A call of a handler with the state `H`.
abbrev pub Call : Type 0 → Type 0 → Type 0
Call H A = H → Reply JsonRpcError A × H

-- `McpHandler`; the tools and the resources that are listed are JSON already.
pub record McpHandler (H R : Type 0) : Type 0 where
  pub list_tools : Call H Value
  pub call_tool : ToolCallRequest → Call H ToolCallResult
  pub list_resources : Call H Value
  pub read_resource : ResourceReadRequest → Call H R

-- `to_value` of what serde makes of a value.
abbrev pub to_value : Option Value → Reply JsonRpcError Value
to_value none = failed (rpc_error ErrorCode.internal_error "failed to encode result")
to_value (some value) = done value

-- A call after checks that may fail, and its result in another form.
abbrev pub checked_call : {H A P : Type 0} → Reply JsonRpcError P → (P → Call H A) → Call H A
checked_call (done p) call state = call p state
checked_call (failed e) call state = (failed e, state)

abbrev pub formed :
    {H A B : Type 0}
    → (A → Reply JsonRpcError B)
    → Reply JsonRpcError A × H
    → Reply JsonRpcError B × H
formed f (r, state) = (r >>= f, state)

abbrev pub only : String → Value → Value
only name value = Value.object (Fields.field name value Fields.end)

abbrev pub empty_object : Value
empty_object = Value.object Fields.end

-- `initialize_result` as JSON
unfoldable pub initialize_result : ServerMetadata → Value
initialize_result metadata = Value.object (
    Fields.field "protocolVersion" (Value.string metadata.protocol_version) (
      Fields.field "capabilities"
        (Value.object (
          Fields.field "tools" (only "listChanged" (Value.bool false)) (
            Fields.field "resources"
              (Value.object (
                Fields.field "subscribe" (Value.bool false)
                  (Fields.field "listChanged" (Value.bool false) Fields.end)))
              Fields.end)))
        (Fields.field "serverInfo"
          (Value.object (
            Fields.field "name" (Value.string metadata.name)
              (Fields.field "version" (Value.string metadata.version) Fields.end)))
          Fields.end)))

module _ {H R : Type 0} (result_json : ToolCallResult → Option Value)
    (resource_json : R → Option Value) (metadata : ServerMetadata) (handler : McpHandler H R) where
  unfoldable pub call_tool_method : Option Value → Call H Value
  unfolding require_object_params parse_tool_call_params
  call_tool_method params state =
      formed (λ result. to_value (result_json result))
        (checked_call
          (require_object_params params "tools/call requires object params"
            >>= parse_tool_call_params)
          handler.call_tool state)

  unfoldable pub read_resource_method : Option Value → Call H Value
  unfolding require_object_params parse_resource_read_params
  read_resource_method params state =
      formed (λ result. to_value (resource_json result))
        (checked_call
          (require_object_params params "resources/read requires object params"
            >>= parse_resource_read_params)
          handler.read_resource state)

  unfoldable pub route_method : JsonRpcRequest → Call H Value
  unfolding ensure_object_or_absent initialize_result call_tool_method read_resource_method
  route_method request state =
      let allowed = ensure_object_or_absent request.params in
      if str_eq request.method "initialize"
      then (allowed >> done (initialize_result metadata), state)
      else if str_eq request.method "notifications/initialized"
      then (allowed >> done empty_object, state)
      else if str_eq request.method "ping"
      then (allowed >> done empty_object, state)
      else if str_eq request.method "tools/list"
      then formed (λ tools. done (only "tools" tools))
          (checked_call allowed (λ _. handler.list_tools) state)
      else if str_eq request.method "tools/call"
      then call_tool_method request.params state
      else if str_eq request.method "resources/list"
      then formed (λ resources. done (only "resources" resources))
          (checked_call allowed (λ _. handler.list_resources) state)
      else if str_eq request.method "resources/read"
      then read_resource_method request.params state
      else (failed (rpc_error ErrorCode.method_not_found "method not found"), state)

  -- The answer to a request that came out as `result`.
  unfoldable pub outcome_for : Option JsonRpcId → Reply JsonRpcError Value → DispatchOutcome
  outcome_for none result = DispatchOutcome.no_response
  outcome_for (some id) (done value) = DispatchOutcome.response (response_success id value)
  outcome_for (some id) (failed e) = DispatchOutcome.response (response_error id e)

  unfoldable pub dispatch_request : JsonRpcRequest → H → DispatchOutcome × H
  unfolding route_method outcome_for
  dispatch_request request state =
      let (result, state') = route_method request state in (outcome_for request.id result, state')

  unfoldable pub dispatch_parsed : Reply JsonRpcResponse JsonRpcRequest → H → DispatchOutcome × H
  unfolding dispatch_request
  dispatch_parsed (done request) state = dispatch_request request state
  dispatch_parsed (failed r) state = (DispatchOutcome.response r, state)

  unfoldable pub dispatch_value : Value → H → DispatchOutcome × H
  unfolding parse_jsonrpc_request dispatch_parsed
  dispatch_value value state = dispatch_parsed (parse_jsonrpc_request value) state
