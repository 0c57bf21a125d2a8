-- ===== src/Tests/Delivery.antt =====
-- A notification on the streams of `Reception`, for a client that waits.
use hft_deribit.Prelude.{ℕ, ◌≡◌, refl, true, List, [], ◌∷◌, none, some, codes}
use hft_deribit.SpscQueue.Holds.{init-Holds}
use hft_deribit.Json.{field_uint64, field_string, field_object, member_string, member_raw_json}
use hft_deribit.Dispatcher.{new_dispatcher, invoke_sub}
use hft_deribit.Dispatcher.Dispatch.{dispatch}
use hft_deribit.Dispatcher.Tables.{Registration, for_channel, register_all, latest_sub}
use hft_deribit.Dispatcher.Notices.{notification, notice}
use hft_deribit.DeribitClient.{RpcCallback, UserData, blank_client}
use hft_deribit.DeribitClient.Shutdown.{inbound_IsCapacity}
use hft_deribit.System.{Steps}
use hft_deribit.System.State.{Phase, Receiving, Sending, Dispatching}
use hft_deribit.System.Delivery.{IsWaiting, notification_delivered}
use hft_deribit.Tests.Json.{reader}
use hft_deribit.Tests.Messages.{tick}
use hft_deribit.Tests.Reception.{player}
use hft_deribit.Tests.Sessions.{Session, client, first}

abbrev registered : List (Registration (RpcCallback ℕ) ℕ (UserData ℕ))
registered = for_channel (codes "c") (some 5) ∷ []

abbrev waiting : Session
waiting = record first {
  phase = Phase.up;
  client = record client { dispatcher = register_all new_dispatcher registered; connected = true };
  receiver_running = true;
  receiver = Receiving.at_loop;
  sender_running = true;
  sender = Sending.at_running;
  dispatcher = Dispatching.at_wait;
}

waits : IsWaiting waiting
unfolding blank_client
waits = record {
  receiver = refl;
  running = refl;
  live = refl;
  dispatcher = refl;
  connected = refl;
  queue = init-Holds inbound_IsCapacity [];
}

notification_delivered_example :
    (t : Session) × Steps (reader tick) player waiting t
    × (t.dispatcher ≡ Dispatching.in_dispatch (1 ∷ []))
    × (dispatch (reader tick) t.client.dispatcher (1 ∷ [])
        ≡ some (
            invoke_sub
              (latest_sub (codes "c") none registered)
              (notification (reader tick) (codes "c") (codes "raw"))))
unfolding field_uint64 field_string field_object member_string member_raw_json notice
notification_delivered_example =
    notification_delivered (reader tick) player waiting registered (1 ∷ []) (codes "c")
      (codes "raw") waits refl refl refl refl refl refl refl
