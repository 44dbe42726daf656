-- ===== src/Mcp/Dispatch/Access.antt =====
-- src/serve.rs: the access mode, and the handler of the HTTP server, which asks the handler of
-- src/mcp.rs where the mode allows it.
use plasmite.Prelude.{Bool, true, false, some, String, not, ◌&&◌, ◌||◌, if◌then◌else◌}
use plasmite.Mcp.Json.{Value, Fields}
use plasmite.Mcp.Rpc.{JsonRpcError, ErrorCode, ToolCallRequest, ResourceReadRequest, done, failed}
use plasmite.Mcp.Dispatch.{Call, McpHandler, ToolCallResult, execution_error}
use text.Mathlib.Text.{◌==◌ as str_eq}

pub data AccessMode : Type 0 where
  read_only write_only read_write : AccessMode

unfoldable pub allows_read : AccessMode → Bool
allows_read read_only = true
allows_read write_only = false
allows_read read_write = true

unfoldable pub allows_write : AccessMode → Bool
allows_write read_only = false
allows_write write_only = true
allows_write read_write = true

unfoldable pub mcp_tool_requires_read : String → Bool
mcp_tool_requires_read name =
    str_eq name "plasmite_pool_list"
    || str_eq name "plasmite_pool_info"
    || str_eq name "plasmite_fetch"
    || str_eq name "plasmite_read"

unfoldable pub mcp_tool_requires_write : String → Bool
mcp_tool_requires_write name =
    str_eq name "plasmite_pool_create"
    || str_eq name "plasmite_pool_delete"
    || str_eq name "plasmite_feed"

-- What may be done is "read" or "write".
abbrev pub denied_message : Bool → String
denied_message true = "forbidden: access mode disallows read operations"
denied_message false = "forbidden: access mode disallows write operations"

abbrev pub access_hint : Fields
access_hint =
    Fields.field "hint" (Value.string "Adjust --access to permit this operation.") Fields.end

unfoldable pub mcp_access_denied_tool_result : Bool → String → ToolCallResult
mcp_access_denied_tool_result reads tool = execution_error (denied_message reads) (
    some (
      Value.object (
        Fields.field "error_kind" (Value.string "Permission")
          (Fields.field "tool" (Value.string tool) access_hint))))

unfoldable pub mcp_access_denied_rpc_error : Bool → JsonRpcError
mcp_access_denied_rpc_error reads = record {
  code = ErrorCode.server_error;
  message = denied_message reads;
  data_value =
      some (Value.object (Fields.field "error_kind" (Value.string "Permission") access_hint));
}

module _ {H R : Type 0} (inner : McpHandler H R) (access_mode : AccessMode) where
  unfoldable pub serve_call_tool : ToolCallRequest → Call H ToolCallResult
  unfolding mcp_tool_requires_read mcp_tool_requires_write allows_read allows_write
      mcp_access_denied_tool_result
  serve_call_tool request state =
      if mcp_tool_requires_read request.name && not (allows_read access_mode)
      then (done (mcp_access_denied_tool_result true request.name), state)
      else if mcp_tool_requires_write request.name && not (allows_write access_mode)
      then (done (mcp_access_denied_tool_result false request.name), state)
      else inner.call_tool request state

  unfoldable pub serve_list_resources : Call H Value
  unfolding allows_read mcp_access_denied_rpc_error
  serve_list_resources state =
      if not (allows_read access_mode)
      then (failed (mcp_access_denied_rpc_error true), state)
      else inner.list_resources state

  unfoldable pub serve_read_resource : ResourceReadRequest → Call H R
  unfolding allows_read mcp_access_denied_rpc_error
  serve_read_resource request state =
      if not (allows_read access_mode)
      then (failed (mcp_access_denied_rpc_error true), state)
      else inner.read_resource request state

  -- `ServeMcpHandler`
  unfoldable pub serve_mcp_handler : McpHandler H R
  unfolding serve_call_tool serve_list_resources serve_read_resource
  serve_mcp_handler = record {
    list_tools = inner.list_tools;
    call_tool = serve_call_tool;
    list_resources = serve_list_resources;
    read_resource = serve_read_resource;
  }
