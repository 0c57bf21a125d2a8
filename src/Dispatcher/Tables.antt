-- ===== src/Dispatcher/Tables.antt =====
-- The two tables against the registrations that filled them.
use hft_deribit.Prelude.{
  ℕ, ◌%◌, ◌<◌, ◌≡◌, refl, ap, ◌∙◌, arith, List, [], ◌∷◌, Option, Text, ◌==◌, if◌then◌else◌,
}
use hft_deribit.Prelude.Bits.{bit_and_mask}
use hft_deribit.FastHash.{fast_hash}
use hft_deribit.ParsedMessage.{RpcHandler}
use hft_deribit.Dispatcher.{
  Dispatcher, rpc_slot, sub_slot, register_rpc, register_subscription, max_inflight, sub_table,
}

-- The masks are remainders, so no index leaves its table.
rpc_slot-mod : (id : ℕ) → rpc_slot id ≡ id % max_inflight
unfolding rpc_slot
rpc_slot-mod id = bit_and_mask 12 id

sub_slot-mod : (channel : Text) → sub_slot channel ≡ fast_hash channel % sub_table
unfolding sub_slot
sub_slot-mod channel = bit_and_mask 12 (fast_hash channel)

-- For every id and channel, `id & (MAX_INFLIGHT - 1)` and `hash & (SUB_TABLE - 1)` are indices
-- inside the two tables.
slots_in_range :
    (id : ℕ) (channel : Text) → (rpc_slot id < max_inflight) × (sub_slot channel < sub_table)
slots_in_range id channel = omega (arith, rpc_slot-mod id, sub_slot-mod channel)

-- A call of `register_rpc` or `register_subscription`.
pub data Registration (F S U : Type 0) : Type 0 where
  for_rpc : (id : ℕ) → RpcHandler F U → Registration F S U
  for_channel : (channel : Text) → Option S → Registration F S U

module _ {F S U : Type 0} where
  unfoldable pub register : Dispatcher F S U → Registration F S U → Dispatcher F S U
  unfolding register_rpc register_subscription
  register d (for_rpc id h) = register_rpc d id h.on_success h.on_error h.user_data
  register d (for_channel channel f) = register_subscription d channel f

  -- The registrations in order.
  unfoldable pub register_all : Dispatcher F S U → List (Registration F S U) → Dispatcher F S U
  unfolding register
  register_all d [] = d
  register_all d (r ∷ rs) = register_all (register d r) rs

  -- The last of the registrations whose id leaves the same remainder, or what was there before.
  unfoldable pub latest_rpc : ℕ → RpcHandler F U → List (Registration F S U) → RpcHandler F U
  latest_rpc id h [] = h
  latest_rpc id h (for_rpc i g ∷ rs) =
      latest_rpc id (if i % max_inflight == id % max_inflight then g else h) rs
  latest_rpc id h (for_channel channel f ∷ rs) = latest_rpc id h rs

  -- The last of the registrations whose channel has the same hash modulo the table's size.
  unfoldable pub latest_sub : Text → Option S → List (Registration F S U) → Option S
  latest_sub ch f [] = f
  latest_sub ch f (for_rpc i g ∷ rs) = latest_sub ch f rs
  latest_sub ch f (for_channel channel g ∷ rs) =
      latest_sub ch (if fast_hash channel % sub_table == fast_hash ch % sub_table then g else f) rs

  -- What the tables hold after any registrations.
  pub rpc_handler-register_all :
      (d : Dispatcher F S U) (rs : List (Registration F S U)) (id : ℕ)
      → (register_all d rs).rpc_handler (rpc_slot id)
        ≡ latest_rpc id (d.rpc_handler (rpc_slot id)) rs
  unfolding register_all latest_rpc
  rpc_handler-register_all d [] id = refl
  rpc_handler-register_all d (for_rpc i g ∷ rs) id =
      rpc_handler-register_all (register d (for_rpc i g)) rs id
      ∙ ap (λ h. latest_rpc id h rs) (rw (rpc_slot-mod i, rpc_slot-mod id) refl)
  rpc_handler-register_all d (for_channel channel f ∷ rs) id =
      rpc_handler-register_all (register d (for_channel channel f)) rs id

  pub sub_handler-register_all :
      (d : Dispatcher F S U) (rs : List (Registration F S U)) (ch : Text)
      → (register_all d rs).sub_handler (sub_slot ch)
        ≡ latest_sub ch (d.sub_handler (sub_slot ch)) rs
  unfolding register_all latest_sub
  sub_handler-register_all d [] ch = refl
  sub_handler-register_all d (for_rpc i g ∷ rs) ch =
      sub_handler-register_all (register d (for_rpc i g)) rs ch
  sub_handler-register_all d (for_channel channel g ∷ rs) ch =
      sub_handler-register_all (register d (for_channel channel g)) rs ch
      ∙ ap (λ f. latest_sub ch f rs) (rw (sub_slot-mod channel, sub_slot-mod ch) refl)
