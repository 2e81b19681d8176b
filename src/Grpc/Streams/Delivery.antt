-- ===== src/Grpc/Streams/Delivery.antt =====
-- Who receives an event, and what a clean-up between the read and the sends does.
use event_pool.Prelude.{
  ℕ, ◌≡◌, refl, ◌∙◌, ◌⊎◌, inl, inr, List, [], ◌∷◌, ◌++◌, Bool, true, false, Option, none, some,
  arith, if◌then◌else◌, ltb, nat_eq, nat_eq_iff, length, among, IsDistinct, Bool-cases,
  Option-cases, lookup, insert, lookup-insert, nat_Eq, text_Eq, Dict, among-append_left,
  among-append_right,
}
use event_pool.Text.{Text}
use event_pool.Grpc.Streams.{
  Event, Channel, Server, subscribers_of, cleanup_stream, send_event, send_all, subscription_key,
  broadcast_event, channel_size, remove_in_place,
}
use event_pool.Grpc.Streams.Validity.{IsOpen, IsValid, lookup-close}

-- What a send leaves of an open channel: a full one drops the event.
abbrev pub deliver : Event → Channel → Channel
deliver event ch =
    if ltb (length ch.buffer) channel_size
    then record ch { buffer = ch.buffer ++ event ∷ [] }
    else ch

abbrev pub received : Bool → Event → Option Channel → Option Channel
received false event o = o
received true event none = none
received true event (some ch) = some (deliver event ch)

-- One send on an open channel.
send_event-open :
    (event : Event) (stream : ℕ) (channels : Dict ℕ Channel)
    → IsOpen stream channels
    → (channels' : Dict ℕ Channel) × (send_event event stream channels ≡ some channels')
      × ((i : ℕ) → lookup i channels' ≡ received (nat_eq stream i) event (lookup i channels))
unfolding send_event
send_event-open event stream channels (ch, e, open_now) =
    elim (Bool-cases (ltb (length ch.buffer) channel_size)) [
      | inl room ↦
          let ch' = record ch { buffer = ch.buffer ++ event ∷ [] } in
          (
            insert stream ch' channels,
            rw (e, open_now, room, send_event),
            λ i. ground (arith, lookup-insert stream i ch' channels, nat_eq_iff stream i),
          )
      | inr full ↦
          (channels, rw (e, open_now, full, send_event), λ i. ground (arith, nat_eq_iff stream i))
    ]

-- The channels after sends to distinct open ones.
send_all-open :
    (event : Event) (streams : List ℕ) (channels : Dict ℕ Channel)
    → IsDistinct streams
    → ((i : ℕ) → among i streams ≡ true → IsOpen i channels)
    → (channels' : Dict ℕ Channel) × (send_all event streams channels ≡ some channels')
      × ((i : ℕ) → lookup i channels' ≡ received (among i streams) event (lookup i channels))
unfolding send_all
send_all-open event [] channels d open_all = (channels, refl, λ i. refl)
send_all-open event (m ∷ ms) channels d open_all =
    let (c1, e1, l1) = send_event-open event m channels (open_all m (ground arith)) in
    let (c2, e2, l2) = send_all-open event ms c1 d.1 (λ i h. still i h c1 l1) in
    (c2, rw (e1, send_all) e2, λ i. ground (arith, l1 i, l2 i, nat_eq_iff m i, d.0))
  where
    still :
        (i : ℕ)
        → among i ms ≡ true
        → (c : Dict ℕ Channel)
        → ((j : ℕ) → lookup j c ≡ received (nat_eq m j) event (lookup j channels))
        → IsOpen i c
    still i h c l =
        let (ch, e, open_now) = open_all i (ground arith) in
        let other : nat_eq m i ≡ false = ground (arith, nat_eq_iff m i, d.0) in
        (ch, l i ∙ rw (other, e) refl, open_now)

-- A send leaves the other channels alone, or panics.
send_event-other :
    (event : Event) (stream i : ℕ) (channels : Dict ℕ Channel)
    → nat_eq stream i ≡ false
    → (send_event event stream channels ≡ none)
      ⊎ ((c : Dict ℕ Channel) × (send_event event stream channels ≡ some c)
          × (lookup i c ≡ lookup i channels))
unfolding send_event
send_event-other event stream i channels other = elim (Option-cases (lookup stream channels)) [
  | inl e ↦ inr (channels, rw (e, send_event), refl)
  | inr (ch, e) ↦ elim (Bool-cases ch.closed) [
    | inl c ↦ inl (rw (e, c, send_event))
    | inr c ↦ elim (Bool-cases (ltb (length ch.buffer) channel_size)) [
      | inr full ↦ inr (channels, rw (e, c, full, send_event), refl)
      | inl room ↦
          let ch' = record ch { buffer = ch.buffer ++ event ∷ [] } in
          inr (
            insert stream ch' channels,
            rw (e, c, room, send_event),
            rw (lookup-insert stream i ch' channels, other),
          )
    ]
  ]
]

-- Sends that reach a closed channel panic, whatever is sent before.
send_all-closed :
    (event : Event) (streams : List ℕ) (channels : Dict ℕ Channel) (i : ℕ) (ch : Channel)
    → among i streams ≡ true
    → lookup i channels ≡ some ch
    → ch.closed ≡ true
    → send_all event streams channels ≡ none
unfolding send_all
send_all-closed event [] channels i ch h e c = cc
send_all-closed event (m ∷ ms) channels i ch h e c = elim (Bool-cases (nat_eq m i)) [
  | inl same ↦ rw (closed_panics m ((nat_eq_iff m i).0 same), send_all)
  | inr other ↦ elim (send_event-other event m i channels other) [
    | inl p ↦ rw (p, send_all)
    | inr (c1, p, kept) ↦
        rw (p, send_all) (send_all-closed event ms c1 i ch (rw other at h) (kept ∙ e) c)
  ]
]
  where
    closed_panics : (m : ℕ) → m ≡ i → send_event event m channels ≡ none
    closed_panics m q = rw (q, send_event, e, c)

-- Where every subscriber has an open channel, a broadcast that nothing interrupts does not panic. It
-- appends the event to the channel of each subscriber of its key that is not full, and to no other
-- channel, and changes neither the subscribers nor the connections.
pub broadcast_event-delivers :
    (chain_id : ℕ) (address name : Text) (event : Event) (s : Server)
    → IsValid s
    → (s' : Server) × (broadcast_event chain_id address name event s ≡ some s')
      × ((i : ℕ)
          → lookup i s'.channels
            ≡ received
                (among i (subscribers_of (subscription_key chain_id address name) s))
                event
                (lookup i s.channels))
      × (s'.subscribers ≡ s.subscribers)
      × (s'.active_conns ≡ s.active_conns)
      × (s'.cancelled ≡ s.cancelled)
unfolding broadcast_event
broadcast_event-delivers chain_id address name event s v =
    let key = subscription_key chain_id address name in
    let (c, e, l) =
      send_all-open event (subscribers_of key s) s.channels (v.once key) (v.opened key) in
    (record s { channels = c }, rw (e, broadcast_event), l, refl, refl, refl)

last_among : (n : ℕ) (front : List ℕ) → among n (front ++ n ∷ []) ≡ true
last_among n front = among-append_right n front (n ∷ []) (ground arith)

last_stays : (n : ℕ) (front : List ℕ) → among n (remove_in_place n (front ++ n ∷ [])) ≡ true
unfolding remove_in_place
last_stays n [] = ground arith
last_stays n (m ∷ front) = elim (Bool-cases (nat_eq m n)) [
  | inl same ↦ rw same (among-append_left n (front ++ n ∷ []) _ (last_among n front))
  | inr other ↦ rw (other, other) (last_stays n front)
]

-- The lock is released between the read of the subscribers and the sends. If the one that was
-- subscribed last to the key leaves in between, its channel is closed and still stands in the array
-- that the broadcast reads: the send panics.
pub broadcast_race_panics :
    (key token : Text) (stream : ℕ) (front : List ℕ) (event : Event) (s : Server)
    → IsValid s
    → subscribers_of key s ≡ front ++ stream ∷ []
    → send_all event
        (remove_in_place stream (subscribers_of key s))
        (cleanup_stream key token stream s).channels
      ≡ none
unfolding cleanup_stream
broadcast_race_panics key token stream front event s v e =
    let (ch, there, _) = v.opened key stream (rw e (last_among stream front)) in
    send_all-closed event _ _ stream (record ch { closed = true }) (rw e (last_stays stream front))
      (rw (lookup-close stream stream s.channels, (nat_eq_iff stream stream).1 refl, there) refl)
      refl
