-- ===== src/Mcp/Request.antt =====
-- src/mcp.rs: a JSON value as a JSON-RPC request.
use plasmite.Prelude.{Option, none, some, String, not, if◌then◌else◌}
use plasmite.Mcp.Json
use plasmite.Mcp.Json.{Value, Fields, get, as_str, as_i64}
use plasmite.Mcp.Rpc.{
  JsonRpcId, JsonRpcRequest, JsonRpcResponse, JsonRpcError, ErrorCode, response_error, rpc_error,
  json_rpc_version, ToolCallRequest, ResourceReadRequest, Reply, done, failed, ◌>>=◌,
}
use text.Mathlib.Text.{◌==◌ as str_eq}

abbrev pub id_of_number : Option Json.Number → Reply JsonRpcError JsonRpcId
id_of_number none = failed (rpc_error ErrorCode.invalid_request "id must be an integer number")
id_of_number (some n) = done (JsonRpcId.number n)

unfoldable pub parse_jsonrpc_id : Value → Reply JsonRpcError JsonRpcId
unfolding as_i64
parse_jsonrpc_id (Value.string text) = done (JsonRpcId.string text)
parse_jsonrpc_id (Value.number n) = id_of_number (as_i64 n)
parse_jsonrpc_id Value.null = done JsonRpcId.null
parse_jsonrpc_id _ =
    failed (rpc_error ErrorCode.invalid_request "id must be a string, integer number, or null")

-- `map_err`
abbrev pub map_err : {E F A : Type 0} → (E → F) → Reply E A → Reply F A
map_err f (done a) = done a
map_err f (failed e) = failed (f e)

abbrev pub or_null_id : Option JsonRpcId → JsonRpcId
or_null_id none = JsonRpcId.null
or_null_id (some id) = id

-- The id, if the object has one.
unfoldable pub id_of_field : Option Value → Reply JsonRpcResponse (Option JsonRpcId)
unfolding parse_jsonrpc_id
id_of_field none = done none
id_of_field (some raw_id) =
    map_err (response_error JsonRpcId.null) (parse_jsonrpc_id raw_id) >>= λ id. done (some id)

-- A text that must be there.
abbrev pub text_or : JsonRpcId → String → Option String → Reply JsonRpcResponse String
text_or id message none = failed (response_error id (rpc_error ErrorCode.invalid_request message))
text_or id message (some text) = done text

unfoldable pub parse_fields : Fields → Reply JsonRpcResponse JsonRpcRequest
unfolding id_of_field
parse_fields object = do
  id ← id_of_field (get "id" object)
  jsonrpc ← text_or (or_null_id id) "missing jsonrpc field" (as_str (get "jsonrpc" object))
  (if not (str_eq jsonrpc json_rpc_version)
      then failed (
          response_error (or_null_id id)
            (rpc_error ErrorCode.invalid_request "jsonrpc must be \"2.0\""))
      else (text_or (or_null_id id) "missing method field" (as_str (get "method" object))
          >>= λ method. done (record {
            jsonrpc = jsonrpc;
            id = id;
            method = method;
            params = get "params" object;
          })))

unfoldable pub parse_jsonrpc_request : Value → Reply JsonRpcResponse JsonRpcRequest
unfolding parse_fields
parse_jsonrpc_request (Value.object object) = parse_fields object
parse_jsonrpc_request _ = failed (
    response_error JsonRpcId.null
      (rpc_error ErrorCode.invalid_request "request must be a JSON object"))

unfoldable pub require_object_params : Option Value → String → Reply JsonRpcError Fields
require_object_params (some (Value.object map)) message = done map
require_object_params _ message = failed (rpc_error ErrorCode.invalid_params message)

unfoldable pub ensure_object_or_absent : Option Value → Reply JsonRpcError (Unit {0})
ensure_object_or_absent none = done tt
ensure_object_or_absent (some Value.null) = done tt
ensure_object_or_absent (some (Value.object map)) = done tt
ensure_object_or_absent _ =
    failed (rpc_error ErrorCode.invalid_params "params must be an object when provided")

-- A parameter that must be a text.
abbrev pub param_text : String → Option String → Reply JsonRpcError String
param_text message none = failed (rpc_error ErrorCode.invalid_params message)
param_text message (some text) = done text

unfoldable pub arguments_of : Option Value → Reply JsonRpcError Fields
arguments_of none = done Fields.end
arguments_of (some Value.null) = done Fields.end
arguments_of (some (Value.object arguments)) = done arguments
arguments_of _ =
    failed (rpc_error ErrorCode.invalid_params "tools/call `arguments` must be an object")

unfoldable pub parse_tool_call_params : Fields → Reply JsonRpcError ToolCallRequest
unfolding arguments_of
parse_tool_call_params params = do
  name ← param_text "tools/call requires string param `name`" (as_str (get "name" params))
  arguments ← arguments_of (get "arguments" params)
  done (record { name = name; arguments = arguments })

unfoldable pub parse_resource_read_params : Fields → Reply JsonRpcError ResourceReadRequest
parse_resource_read_params params = do
  uri ← param_text "resources/read requires string param `uri`" (as_str (get "uri" params))
  done (record { uri = uri })
