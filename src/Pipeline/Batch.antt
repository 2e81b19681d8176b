-- ===== src/Pipeline/Batch.antt =====
-- A batch of a monitored contract reaches the clients that subscribed to its event.
use mathlib.Core.List.{append_assoc, append-nil}
use event_pool.Prelude.{
  ℕ, suc, All, length-append, ◌+◌, ◌≤◌, ◌≡◌, refl, ap, sym, ◌∙◌, List, [], ◌∷◌, ◌++◌, true, false,
  some, map, arith, length, among, lookup, nat_Eq, text_Eq,
}
use event_pool.Text.{Text, to_lower}
use event_pool.Ethereum.Log.{Log, Contract}
use event_pool.Monitor.Poll.{Broadcast, Env, process_event, decoded_or_raw, process_logs_event}
use event_pool.Grpc.Auth.{Claims}
use event_pool.Grpc.Streams.{
  Event, Channel, Server, subscribers_of, subscription_key, broadcast_event, channel_size,
}
use event_pool.Grpc.Streams.Validity.{IsValid}
use event_pool.Grpc.Streams.Delivery.{broadcast_event-delivers}
use event_pool.Grpc.Streams.Sessions.{delivered-IsValid}
use event_pool.Grpc.Forward.{UsageStore, waiting, Forwarded, count_bytes, forward_loop}
use event_pool.Pipeline.{event_of, broadcast_all, takes}

-- The event of a log.
abbrev pub log_event : Env → Text → Log → Event
log_event env event_signature log = record {
  block_number = log.block_number;
  tx_hash = log.tx_hash;
  content = decoded_or_raw env event_signature log;
}

log_broadcast : Env → ℕ → Text → Text → Contract → Log → Broadcast
log_broadcast env chain_id address event_signature row log = record {
  chain_id = chain_id;
  address = address;
  event_name = row.event_name;
  block_number = log.block_number;
  tx_hash = log.tx_hash;
  content = decoded_or_raw env event_signature log;
}

-- Where the contract is found, each log makes one broadcast.
process_logs_event-map :
    (env : Env) (chain_id : ℕ) (address event_signature : Text) (row : Contract) (logs : List Log)
    → env.find_contract chain_id (to_lower address) event_signature ≡ some row
    → env.has_server ≡ true
    → process_logs_event env chain_id address event_signature logs
      ≡ map (log_broadcast env chain_id address event_signature row) logs
unfolding process_logs_event process_event log_broadcast
process_logs_event-map env chain_id address event_signature row [] found on = refl
process_logs_event-map env chain_id address event_signature row (log ∷ logs) found on =
    let rest = process_logs_event-map env chain_id address event_signature row logs found on in
    rw (found, on, rest, process_logs_event, process_event) refl

forward_loop-takes :
    (redis : UsageStore) (token : Text) (claims : Claims) (events : List Event)
    (f : Forwarded redis token claims)
    → (g : Forwarded redis token claims) × (forward_loop redis token claims (takes events) f
        ≡ (waiting, g))
      × (g.sent ≡ f.sent ++ events)
unfolding forward_loop
forward_loop-takes redis token claims [] f = (f, refl, sym (append-nil f.sent))
forward_loop-takes redis token claims (event ∷ events) f =
    let usage' = count_bytes redis token claims event false false f.usage in
    let (g, e, s) =
      forward_loop-takes redis token claims events
        (record { usage = usage'; sent = f.sent ++ event ∷ [] }) in
    (g, e, s ∙ append_assoc f.sent (event ∷ []) events)

-- One broadcast to a subscriber with room.
broadcast_one :
    (b : Broadcast) (s : Server) (i : ℕ) (ch : Channel)
    → IsValid s
    → among i (subscribers_of (subscription_key b.chain_id b.address b.event_name) s) ≡ true
    → lookup i s.channels ≡ some ch
    → suc (length ch.buffer) ≤ channel_size
    → (s' : Server) × (broadcast_event b.chain_id b.address b.event_name (event_of b) s ≡ some s')
      × IsValid s'
      × (s'.subscribers ≡ s.subscribers)
      × (lookup i s'.channels ≡ some (record ch { buffer = ch.buffer ++ event_of b ∷ [] }))
broadcast_one b s i ch v listed there room =
    let (s', e, l, q, _, _) =
      broadcast_event-delivers b.chain_id b.address b.event_name (event_of b) s v in
    (s', e, delivered-IsValid s s' _ (event_of b) q l v, q, l i ∙ rw (listed, there) (ground arith))

broadcast_all-delivers :
    (key : Text) (bs : List Broadcast) (s : Server) (i : ℕ) (ch : Channel)
    → All (λ b. subscription_key b.chain_id b.address b.event_name ≡ key) bs
    → IsValid s
    → among i (subscribers_of key s) ≡ true
    → lookup i s.channels ≡ some ch
    → length ch.buffer + length bs ≤ channel_size
    → (s' : Server) × (broadcast_all bs s ≡ some s')
      × (lookup i s'.channels ≡ some (record ch { buffer = ch.buffer ++ map event_of bs }))
unfolding broadcast_all
broadcast_all-delivers key [] s i ch same v listed there room =
    (s, refl, there ∙ ap (λ b. some (record ch { buffer = b })) (sym (append-nil ch.buffer)))
broadcast_all-delivers key (b ∷ bs) s i ch (here, same) v listed there room =
    let (s1, e, v1, q, there1) =
      broadcast_one b s i ch v (ap (λ k. among i (subscribers_of k s)) here ∙ listed) there
        (omega arith) in
    let ch1 : Channel = record ch { buffer = ch.buffer ++ event_of b ∷ [] } in
    let (s2, rest, last) =
      broadcast_all-delivers key bs s1 i ch1 same v1 (rw q listed) there1
        (omega (arith, length-append ch.buffer (event_of b ∷ []))) in
    (
      s2,
      rw (e, broadcast_all) rest,
      last
          ∙ ap (λ b. some (record ch { buffer = b }))
              (append_assoc ch.buffer (event_of b ∷ []) (map event_of bs)),
    )

module _ (env : Env) (chain_id : ℕ) (address event_signature : Text) (row : Contract) where
  events-map :
      (logs : List Log)
      → map event_of (map (log_broadcast env chain_id address event_signature row) logs)
        ≡ map (log_event env event_signature) logs
  unfolding log_broadcast
  events-map [] = refl
  events-map (log ∷ logs) = ap (λ l. log_event env event_signature log ∷ l) (events-map logs)

  one_key :
      (logs : List Log)
      → All
          (λ b.
            subscription_key b.chain_id b.address b.event_name
            ≡ subscription_key chain_id address row.event_name)
          (map (log_broadcast env chain_id address event_signature row) logs)
  unfolding log_broadcast
  one_key [] = tt
  one_key (log ∷ logs) = (refl, one_key logs)

  length-broadcasts :
      (logs : List Log)
      → length (map (log_broadcast env chain_id address event_signature row) logs) ≡ length logs
  length-broadcasts [] = refl
  length-broadcasts (log ∷ logs) = ap suc (length-broadcasts logs)

  -- A batch of logs of a contract that the database finds, while the gRPC server is there and no other
  -- handler runs: a stream that is subscribed to the contract's chain, address and event name, and has
  -- room for the batch in its channel, is then sent what waited in the channel and behind it one event
  -- for each log, in the order of the logs, with the log's block and transaction and its data decoded or
  -- raw.
  pub process_logs_event-forward_loop :
      (logs : List Log) (s : Server) (stream : ℕ) (ch : Channel) (redis : UsageStore) (token : Text)
      (claims : Claims) (usage : redis.State)
      → env.find_contract chain_id (to_lower address) event_signature ≡ some row
      → env.has_server ≡ true
      → IsValid s
      → among stream (subscribers_of (subscription_key chain_id address row.event_name) s) ≡ true
      → lookup stream s.channels ≡ some ch
      → length ch.buffer + length logs ≤ channel_size
      → (s' : Server) × (broadcast_all
            (process_logs_event env chain_id address event_signature logs)
            s
          ≡ some s')
        × (ch' : Channel) × (lookup stream s'.channels ≡ some ch')
        × (g : Forwarded redis token claims) × (forward_loop redis token claims
              (takes ch'.buffer)
              (record { usage = usage; sent = [] })
            ≡ (waiting, g))
        × (g.sent ≡ ch.buffer ++ map (log_event env event_signature) logs)
  process_logs_event-forward_loop logs s stream ch redis token claims usage found on v listed there
        room =
      let made = process_logs_event-map env chain_id address event_signature row logs found on in
      let bs = map (log_broadcast env chain_id address event_signature row) logs in
      let (s', sent, last) =
        broadcast_all-delivers (subscription_key chain_id address row.event_name) bs s stream ch
          (one_key logs) v listed there (omega (arith, length-broadcasts logs)) in
      let buffer = ch.buffer ++ map event_of bs in
      let (g, e, all) =
        forward_loop-takes redis token claims buffer (record { usage = usage; sent = [] }) in
      (
        s',
        ap (λ l. broadcast_all l s) made ∙ sent,
        record ch { buffer = buffer },
        last,
        g,
        e,
        all ∙ ap (λ l. ch.buffer ++ l) (events-map logs),
      )
