-- ===== src/Mcp/Rpc.antt =====
-- src/mcp.rs: requests, responses and errors of JSON-RPC.
-- An error's code is one of the constants, which are negative: `code_size` is its distance from 0.
use plasmite.Prelude.{ℕ, Option, none, some, String}
use plasmite.Mcp.Json.{Value, Number, Fields}

pub data JsonRpcId : Type 0 where
  string : String → JsonRpcId
  number : Number → JsonRpcId
  null : JsonRpcId

pub record JsonRpcRequest : Type 0 where
  pub jsonrpc : String
  pub id : Option JsonRpcId
  pub method : String
  pub params : Option Value

pub data ErrorCode : Type 0 where
  parse_error invalid_request method_not_found invalid_params internal_error server_error :
      ErrorCode

unfoldable pub code_size : ErrorCode → ℕ
code_size parse_error = 32_700
code_size invalid_request = 32_600
code_size method_not_found = 32_601
code_size invalid_params = 32_602
code_size internal_error = 32_603
code_size server_error = 32_000

pub record JsonRpcError : Type 0 where
  pub code : ErrorCode
  pub message : String
  pub data_value : Option Value

pub record JsonRpcResponse : Type 0 where
  pub jsonrpc : String
  pub id : JsonRpcId
  pub result : Option Value
  pub error : Option JsonRpcError

abbrev pub json_rpc_version : String
json_rpc_version = "2.0"

-- `JsonRpcResponse::success` and `JsonRpcResponse::error`
abbrev pub response_success : JsonRpcId → Value → JsonRpcResponse
response_success id result = record {
  jsonrpc = json_rpc_version;
  id = id;
  result = some result;
  error = none;
}

abbrev pub response_error : JsonRpcId → JsonRpcError → JsonRpcResponse
response_error id error = record {
  jsonrpc = json_rpc_version;
  id = id;
  result = none;
  error = some error;
}

abbrev pub rpc_error : ErrorCode → String → JsonRpcError
rpc_error code message = record { code = code; message = message; data_value = none }

pub data DispatchOutcome : Type 0 where
  response : JsonRpcResponse → DispatchOutcome
  no_response : DispatchOutcome

pub record ToolCallRequest : Type 0 where
  pub name : String
  pub arguments : Fields

pub record ResourceReadRequest : Type 0 where
  pub uri : String

-- `Result<_, E>`
pub data Reply (E A : Type 0) : Type 0 where
  done : A → Reply E A
  failed : E → Reply E A

infixl 5 ◌>>=◌ ◌>>◌
abbrev pub ◌>>=◌ : {E A B : Type 0} → Reply E A → (A → Reply E B) → Reply E B
done a >>= f = f a
failed e >>= f = failed e

abbrev pub ◌>>◌ : {E B : Type 0} → Reply E (Unit {0}) → Reply E B → Reply E B
m >> k = m >>= λ _. k
