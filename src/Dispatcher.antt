-- ===== src/Dispatcher.antt =====
-- include/deribit/dispatcher.h: the handler tables, and the dispatch of one message.
pub mod Dispatch
pub mod Tables
pub mod Routing
pub mod Notices
pub mod Success
pub mod ErrorCode
use hft_deribit.Prelude.{
  ℕ, ◌-◌, bit_and, List, [], ◌∷◌, Option, none, some, Text, ◌==◌, if◌then◌else◌,
}
use hft_deribit.FastHash.{fast_hash}
use hft_deribit.ParsedMessage.{ParsedMessage, RpcHandler}

abbrev pub max_inflight : ℕ
max_inflight = 4096

abbrev pub sub_table : ℕ
sub_table = 4096

-- A C array: the contents of each cell. `Tables` shows that no index leaves the array.
abbrev pub Table : Type 0 → Type 0
Table A = ℕ → A

abbrev pub write {ℓ} : {A : Type ℓ} → (ℕ → A) → ℕ → A → ℕ → A
write t i a k = if i == k then a else t k

-- `F` and `S` stand for the callbacks of requests and of subscriptions, `U` for user data.
pub record Dispatcher (F S U : Type 0) : Type 0 where
  pub rpc_handler : Table (RpcHandler F U)
  pub sub_handler : Table (Option S)

-- A call of a callback.
pub data Invocation (F S U : Type 0) : Type 0 where
  call_rpc : F → ParsedMessage → Option U → Invocation F S U
  call_sub : S → ParsedMessage → Invocation F S U

-- `id & (MAX_INFLIGHT - 1)` and `fast_hash(channel) & (SUB_TABLE - 1)`
unfoldable pub rpc_slot : ℕ → ℕ
rpc_slot id = bit_and id (max_inflight - 1)

unfoldable pub sub_slot : Text → ℕ
sub_slot channel = bit_and (fast_hash channel) (sub_table - 1)

abbrev pub no_handler : {F U : Type 0} → RpcHandler F U
no_handler = record { on_success = none; on_error = none; user_data = none }

module _ {F S U : Type 0} where
  -- A new dispatcher: every callback is null.
  abbrev pub new_dispatcher : Dispatcher F S U
  new_dispatcher = record { rpc_handler = λ _. no_handler; sub_handler = λ _. none }

  unfoldable pub register_rpc :
      Dispatcher F S U → ℕ → Option F → Option F → Option U → Dispatcher F S U
  unfolding rpc_slot
  register_rpc d id success error user = record d {
    rpc_handler =
        write d.rpc_handler (rpc_slot id)
          (record { on_success = success; on_error = error; user_data = user });
  }

  unfoldable pub register_subscription : Dispatcher F S U → Text → Option S → Dispatcher F S U
  unfolding sub_slot
  register_subscription d channel handler = record d {
    sub_handler = write d.sub_handler (sub_slot channel) handler;
  }

  -- `if (h) h(pm, user)`
  unfoldable pub invoke_rpc : Option F → ParsedMessage → Option U → List (Invocation F S U)
  invoke_rpc none pm user = []
  invoke_rpc (some f) pm user = call_rpc f pm user ∷ []

  unfoldable pub invoke_sub : Option S → ParsedMessage → List (Invocation F S U)
  invoke_sub none pm = []
  invoke_sub (some f) pm = call_sub f pm ∷ []
