-- ===== src/ParsedMessage.antt =====
-- include/deribit/parsed_message.h and include/deribit/rpc_handler.h: what is extracted from a
-- message, and the callbacks of a request.
use hft_deribit.Prelude.{ℕ, Text, [], Bool, true, false, ◌||◌, Option, none, some}

pub record ParsedMessage : Type 0 where
  pub access_token : Text
  pub is_rpc : Bool
  pub is_subscription : Bool
  pub is_error : Bool
  pub id : ℕ
  pub error_code : ℕ
  pub us_in : ℕ
  pub us_out : ℕ
  pub us_diff : ℕ
  pub channel : Text
  -- the field `data`
  pub payload : Text
  pub result : Text
  pub error_msg : Text

-- `ParsedMessage pm;`
abbrev pub new_message : ParsedMessage
new_message = record {
  access_token = [];
  is_rpc = false;
  is_subscription = false;
  is_error = false;
  id = 0;
  error_code = 0;
  us_in = 0;
  us_out = 0;
  us_diff = 0;
  channel = [];
  payload = [];
  result = [];
  error_msg = [];
}

-- `F` stands for the function pointers that are not null, `U` for what `user_data` points to.
pub record RpcHandler (F U : Type 0) : Type 0 where
  pub on_success : Option F
  pub on_error : Option F
  pub user_data : Option U

-- Whether a function pointer is not null.
abbrev pub is_set {ℓ} : {A : Type ℓ} → Option A → Bool
is_set none = false
is_set (some f) = true

module _ {F U : Type 0} where
  -- `RPCHandler::clear`, whose result is also a new handler.
  unfoldable pub clear : RpcHandler F U → RpcHandler F U
  clear h = record { on_success = none; on_error = none; user_data = none }

  unfoldable pub valid : RpcHandler F U → Bool
  valid h = is_set h.on_success || is_set h.on_error
