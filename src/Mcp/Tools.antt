-- ===== src/Mcp/Tools.antt =====
-- src/mcp.rs: `PlasmiteMcpHandler`, which picks the tool of a call by its name.
-- A tool is what it does with its arguments and the pools; the name of an unknown tool is left out of the
-- error.
use plasmite.Prelude.{if◌then◌else◌}
use plasmite.Mcp.Json.{Value, Fields}
use plasmite.Mcp.Rpc.{
  ErrorCode, Reply, JsonRpcError, ToolCallRequest, ResourceReadRequest, done, failed, rpc_error,
}
use plasmite.Mcp.Dispatch.{Call, McpHandler, ToolCallResult}
use text.Mathlib.Text.{◌==◌ as str_eq}

-- A tool always gives a result; `H` is the state of the pools.
abbrev pub Tool : Type 0 → Type 0
Tool H = Fields → H → ToolCallResult × H

-- The methods of the handler beside `call_tool`.
pub record Tools (H R : Type 0) : Type 0 where
  pub tool_pool_list : H → ToolCallResult × H
  pub tool_pool_create : Tool H
  pub tool_pool_info : Tool H
  pub tool_pool_delete : Tool H
  pub tool_feed : Tool H
  pub tool_fetch : Tool H
  pub tool_read : Tool H
  pub list_tools : Call H Value
  pub list_resources : Call H Value
  pub read_resource : ResourceReadRequest → Call H R

module _ {H R : Type 0} (tools : Tools H R) where
  abbrev pub resulted : ToolCallResult × H → Reply JsonRpcError ToolCallResult × H
  resulted (result, state) = (done result, state)

  unfoldable pub call_tool : ToolCallRequest → Call H ToolCallResult
  call_tool request state =
      let args = request.arguments in
      if str_eq request.name "plasmite_pool_list"
      then resulted (tools.tool_pool_list state)
      else if str_eq request.name "plasmite_pool_create"
      then resulted (tools.tool_pool_create args state)
      else if str_eq request.name "plasmite_pool_info"
      then resulted (tools.tool_pool_info args state)
      else if str_eq request.name "plasmite_pool_delete"
      then resulted (tools.tool_pool_delete args state)
      else if str_eq request.name "plasmite_feed"
      then resulted (tools.tool_feed args state)
      else if str_eq request.name "plasmite_fetch"
      then resulted (tools.tool_fetch args state)
      else if str_eq request.name "plasmite_read"
      then resulted (tools.tool_read args state)
      else (failed (rpc_error ErrorCode.invalid_params "unknown tool"), state)

  unfoldable pub plasmite_mcp_handler : McpHandler H R
  unfolding call_tool
  plasmite_mcp_handler = record {
    list_tools = tools.list_tools;
    call_tool = call_tool;
    list_resources = tools.list_resources;
    read_resource = tools.read_resource;
  }
