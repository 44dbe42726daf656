-- ===== src/Mcp/Dispatch/ReadOnly.antt =====
-- The MCP server in the mode that allows reading only.
use plasmite.Prelude.{◌≡◌, ap, refl, Bool, true, false, Bool-cases, inl, inr, ◌||◌, Option}
use plasmite.Mcp.Json.{Value}
use plasmite.Mcp.Rpc.{ToolCallRequest}
use plasmite.Mcp.Dispatch.{ServerMetadata, ToolCallResult, dispatch_value}
use plasmite.Mcp.Dispatch.Access.{
  AccessMode, mcp_tool_requires_write, allows_read, allows_write, serve_call_tool,
  serve_mcp_handler, serve_list_resources, serve_read_resource,
}
use plasmite.Mcp.Tools.{Tool, Tools, call_tool, plasmite_mcp_handler}
use text.Mathlib.Text.{◌==◌ as str_eq}

or-false : (a b c : Bool) → (a || b || c) ≡ false → (a ≡ false) × (b ≡ false) × (c ≡ false)
or-false false false false e = (refl, refl, refl)
or-false false false true e = cc
or-false false true c e = cc
or-false true b c e = cc

module _ {H R : Type 0} (tools : Tools H R) (create delete feed : Tool H) where
  -- The handler with other tools that create, delete and feed pools.
  abbrev pub with_writers : Tools H R
  with_writers = record tools {
    tool_pool_create = create;
    tool_pool_delete = delete;
    tool_feed = feed;
  }

  call_tool-same :
      (request : ToolCallRequest) (state : H)
      → mcp_tool_requires_write request.name ≡ false
      → call_tool tools request state ≡ call_tool with_writers request state
  unfolding call_tool mcp_tool_requires_write
  call_tool-same request state reads =
      let (no_create, no_delete, no_feed) =
        or-false (str_eq request.name "plasmite_pool_create")
          (str_eq request.name "plasmite_pool_delete") (str_eq request.name "plasmite_feed")
          reads in
      rw (no_create, no_delete, no_feed) refl

  serve_call_tool-same :
      (request : ToolCallRequest) (state : H)
      → serve_call_tool (plasmite_mcp_handler tools) AccessMode.read_only request state
        ≡ serve_call_tool (plasmite_mcp_handler with_writers) AccessMode.read_only request state
  unfolding serve_call_tool allows_read allows_write plasmite_mcp_handler
  serve_call_tool-same request state = elim (Bool-cases (mcp_tool_requires_write request.name)) [
    | inl writes ↦ rw writes refl
    | inr reads ↦ rw (reads, call_tool-same request state reads) refl
  ]

  served-same :
      serve_mcp_handler (plasmite_mcp_handler tools) AccessMode.read_only
      ≡ serve_mcp_handler (plasmite_mcp_handler with_writers) AccessMode.read_only
  unfolding serve_mcp_handler serve_list_resources serve_read_resource plasmite_mcp_handler
  served-same i = record {
    list_tools = tools.list_tools;
    call_tool = λ request state. serve_call_tool-same request state i;
    list_resources = serve_list_resources (plasmite_mcp_handler tools) AccessMode.read_only;
    read_resource = serve_read_resource (plasmite_mcp_handler tools) AccessMode.read_only;
  }

-- In the mode that allows reading only, the tools that create, delete and feed pools are never run: for any JSON value
-- the answer and the state are the same with whatever other tools in their place.
pub dispatch_value-read_only :
    {H R : Type 0} (tools : Tools H R) (create delete feed : Tool H)
    (result_json : ToolCallResult → Option Value) (resource_json : R → Option Value)
    (metadata : ServerMetadata) (value : Value) (state : H)
    → dispatch_value result_json resource_json metadata
        (serve_mcp_handler (plasmite_mcp_handler tools) AccessMode.read_only)
        value
        state
      ≡ dispatch_value result_json resource_json metadata
          (serve_mcp_handler
            (plasmite_mcp_handler (with_writers tools create delete feed))
            AccessMode.read_only)
          value
          state
dispatch_value-read_only tools create delete feed result_json resource_json metadata value state =
    ap (λ handler. dispatch_value result_json resource_json metadata handler value state)
      (served-same tools create delete feed)
