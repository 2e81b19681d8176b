-- ===== src/Grpc/Streams/Tests.antt =====
-- Two streams of one event, a broadcast to both, and one of them that leaves.
use event_pool.Prelude.{
  ℕ, ◌≡◌, refl, [], ◌∷◌, none, some, among, lookup, insert, text_eq, nat_Eq, text_Eq,
}
use event_pool.Text.{Text, bytes}
use event_pool.Grpc.Streams.{
  Event, Server, subscribers_of, subscription_key, register_stream, cleanup_stream, send_all,
  broadcast_event, remove_in_place,
}
use event_pool.Grpc.Streams.Validity.{IsValid}
use event_pool.Grpc.Streams.Delivery.{received, broadcast_event-delivers, broadcast_race_panics}
use event_pool.Grpc.Streams.Sessions.{Reach, begins, next, opens, new_server, Reach-IsValid}

abbrev key : Text
key = subscription_key 39 (bytes "0xA1") (bytes "Transfer")

abbrev two_streams : Server
two_streams = register_stream key (bytes "t2") 2 (register_stream key (bytes "t1") 1 new_server)

abbrev event : Event
event = record { block_number = 7; tx_hash = bytes "0x1"; content = bytes "{}" }

spelled : key ≡ bytes "39/0xa1/transfer"
unfolding subscription_key
spelled = refl

first_fresh : lookup 1 new_server.channels ≡ none
unfolding new_server lookup
first_fresh = refl

second_fresh : lookup 2 (register_stream key (bytes "t1") 1 new_server).channels ≡ none
unfolding register_stream new_server lookup insert
second_fresh = refl

opened : Reach two_streams
opened =
    next (next begins (opens key (bytes "t1") 1 first_fresh))
      (opens key (bytes "t2") 2 second_fresh)

valid : IsValid two_streams
valid = Reach-IsValid opened

subscribed : subscribers_of key two_streams ≡ 1 ∷ 2 ∷ []
unfolding register_stream new_server subscription_key lookup insert text_eq
subscribed = refl

broadcast_event-delivers_example :
    (s' : Server) × (broadcast_event 39 (bytes "0xA1") (bytes "Transfer") event two_streams
      ≡ some s')
    × ((i : ℕ)
        → lookup i s'.channels
          ≡ received
              (among i (subscribers_of key two_streams))
              event
              (lookup i two_streams.channels))
    × (s'.subscribers ≡ two_streams.subscribers)
    × (s'.active_conns ≡ two_streams.active_conns)
    × (s'.cancelled ≡ two_streams.cancelled)
broadcast_event-delivers_example =
    broadcast_event-delivers 39 (bytes "0xA1") (bytes "Transfer") event two_streams valid

broadcast_race_panics_example :
    send_all event
      (remove_in_place 2 (subscribers_of key two_streams))
      (cleanup_stream key (bytes "t2") 2 two_streams).channels
    ≡ none
broadcast_race_panics_example =
    broadcast_race_panics key (bytes "t2") 2 (1 ∷ []) event two_streams valid subscribed
