-- ===== src/Tests/Mcp.antt =====
-- The theorems about the MCP server at concrete inputs.
use plasmite.Prelude.{
  ℕ, ◌+◌, ◌%◌, ◌<◌, ◌≡◌, refl, arith, inl, inr, Option, none, some, List, [], ◌∷◌, ◌==◌,
  if◌then◌else◌,
}
use plasmite.Error.{Result, ok, err, ErrorKind, failure}
use plasmite.Mcp.Json.{Value, Fields, Number}
use plasmite.Mcp.Rpc.{done}
use plasmite.Mcp.Read.{read_messages_for_tool}
use plasmite.Mcp.Read.Finds.{Finds}
use plasmite.Mcp.Read.Reference.{window}
use plasmite.Mcp.Read.Answer.{read_messages_for_tool_lem}
use plasmite.Mcp.Tools.{Tool, Tools, plasmite_mcp_handler}
use plasmite.Mcp.Dispatch.{ServerMetadata, ToolCallResult, execution_error, dispatch_value}
use plasmite.Mcp.Dispatch.Access.{AccessMode, serve_mcp_handler}
use plasmite.Mcp.Dispatch.Answers.{Answered, dispatch_value_lem}
use plasmite.Mcp.Dispatch.ReadOnly.{with_writers, dispatch_value-read_only}

-- A pool whose message 4 is gone.
abbrev message_but_four : ℕ → Result ℕ
message_but_four seq =
    if seq == 4 then err (failure ErrorKind.not_found "message not found") else ok seq

abbrev no_tags : ℕ → List (List ℕ)
no_tags message = []

abbrev no_time : ℕ → Option ℕ
no_time message = none

abbrev as_number : ℕ → ℕ
as_number message = message

-- The tag of a message is 0 or 1.
abbrev parity_tag : ℕ → List (List ℕ)
parity_tag message = (message % 2 ∷ []) ∷ []

-- Behind 2, the messages 3 and 5 are tagged with 1, and 4 is gone.
two_found :
    Finds parity_tag no_time as_number message_but_four
      (some 2)
      none
      ((1 ∷ []) ∷ [])
      4
      2
      (3 ∷ 5 ∷ [])
two_found = (
  [],
  3 ∷ 5 ∷ [],
  inr (inl (λ (behind : 2 < 2). absurd (omega (arith, behind))), refl),
  (
    3 ∷ [],
    5 ∷ [],
    inl (omega arith, (inl refl, tt), tt, refl),
    (
      [],
      5 ∷ [],
      (inr refl, refl),
      (5 ∷ [], [], inl (omega arith, (inl refl, tt), tt, refl), refl, refl),
      refl,
    ),
    refl,
  ),
  refl,
)

read_messages_for_tool_lem_example :
    read_messages_for_tool parity_tag no_time as_number message_but_four 1
      (some 2)
      none
      ((1 ∷ []) ∷ [])
      (some 2)
      (some 5)
    ≡ ok (window (some 2) 1 (3 ∷ 5 ∷ []))
read_messages_for_tool_lem_example =
    read_messages_for_tool_lem parity_tag no_time as_number message_but_four 1 (some 2) none
      ((1 ∷ []) ∷ []) 2 5 (3 ∷ 5 ∷ []) (omega arith) two_found

read_one : window {A = ℕ} (some 2) 1 (3 ∷ 5 ∷ []) ≡ 3 ∷ []
read_one = refl

abbrev metadata : ServerMetadata
metadata = record { name = "plasmite"; version = "0"; protocol_version = "2025-11-25" }

abbrev done_result : ToolCallResult
done_result = execution_error "done" none

-- The state is the number of messages in a pool.
abbrev counting : Tools ℕ (Unit {0})
counting = record {
  tool_pool_list = λ count. (done_result, count);
  tool_pool_create = λ args count. (done_result, 0);
  tool_pool_info = λ args count. (done_result, count);
  tool_pool_delete = λ args count. (done_result, 0);
  tool_feed = λ args count. (done_result, count + 1);
  tool_fetch = λ args count. (done_result, count);
  tool_read = λ args count. (done_result, count);
  list_tools = λ count. (done Value.null, count);
  list_resources = λ count. (done Value.null, count);
  read_resource = λ request count. (done tt, count);
}

abbrev untouched : Tool ℕ
untouched args count = (done_result, count)

abbrev no_result : ToolCallResult → Option Value
no_result result = some Value.null

abbrev no_resource : Unit {0} → Option Value
no_resource resource = none

-- {"id": 7, "jsonrpc": "2.0", "method": "tools/call", "params": {"name": "plasmite_feed"}}
abbrev feed_call : Value
feed_call = Value.object (
    Fields.field "id" (Value.number (Number.unsigned 7)) (
      Fields.field "jsonrpc" (Value.string "2.0") (
        Fields.field "method" (Value.string "tools/call") (
          Fields.field "params"
            (Value.object (Fields.field "name" (Value.string "plasmite_feed") Fields.end))
            Fields.end))))

dispatch_value_lem_example :
    Answered feed_call
      (dispatch_value no_result no_resource metadata (plasmite_mcp_handler counting) feed_call 0).0
dispatch_value_lem_example =
    dispatch_value_lem no_result no_resource metadata (plasmite_mcp_handler counting) feed_call 0

-- Without the access mode the call counts.
feed_counts :
    (dispatch_value no_result no_resource metadata (plasmite_mcp_handler counting) feed_call 0).1
    ≡ 1
unfolding dispatch_value plasmite_mcp_handler
feed_counts = refl

dispatch_value-read_only_example :
    dispatch_value no_result no_resource metadata
      (serve_mcp_handler (plasmite_mcp_handler counting) AccessMode.read_only)
      feed_call
      0
    ≡ dispatch_value no_result no_resource metadata
        (serve_mcp_handler
          (plasmite_mcp_handler (with_writers counting untouched untouched untouched))
          AccessMode.read_only)
        feed_call
        0
dispatch_value-read_only_example =
    dispatch_value-read_only counting untouched untouched untouched no_result no_resource metadata
      feed_call 0
