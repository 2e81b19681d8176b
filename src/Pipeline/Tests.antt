-- ===== src/Pipeline/Tests.antt =====
-- Two logs of one contract on their way to one stream.
use event_pool.Prelude.{
  ℕ, ◌+◌, ◌≡◌, refl, List, [], ◌∷◌, ◌++◌, map, true, false, none, some, arith, if◌then◌else◌, among,
  lookup, insert, text_eq, nat_Eq, text_Eq,
}
use event_pool.Text.{Text, bytes}
use event_pool.Ethereum.Log.{Log, Contract}
use event_pool.Monitor.Poll.{Env, process_logs_event}
use event_pool.Grpc.Auth.{Claims}
use event_pool.Grpc.Streams.{Channel, Server, subscribers_of, subscription_key, register_stream}
use event_pool.Grpc.Streams.Sessions.{Reach, begins, next, opens, new_server, Reach-IsValid}
use event_pool.Grpc.Forward.{UsageStore, waiting, Forwarded, forward_loop}
use event_pool.Pipeline.{broadcast_all, takes}
use event_pool.Pipeline.Batch.{log_event, process_logs_event-forward_loop}

abbrev row : Contract
row = record {
  id = bytes "a";
  chain_id = 39;
  event_name = bytes "Transfer";
  address = bytes "0xa1";
  event_signature = bytes "0xdd";
  start_block = 10;
  event_abi = [];
}

abbrev env : Env
env = record {
  filter_logs = λ from to. none;
  decode_event = λ signature log. if text_eq log.payload [] then none else some (bytes "{}");
  bytes_to_hex = λ payload. payload;
  find_contract = λ chain address signature. some row;
  has_server = true;
}

abbrev a_log : ℕ → Text → Log
a_log n payload = record {
  block_number = n;
  tx_hash = bytes "0x1";
  block_hash = [];
  index = 0;
  topics = [];
  payload = payload;
}

abbrev logs : List Log
logs = a_log 12 (bytes "ff") ∷ a_log 13 [] ∷ []

abbrev key : Text
key = subscription_key 39 (bytes "0xA1") (bytes "Transfer")

abbrev server : Server
server = register_stream key (bytes "t1") 1 new_server

fresh : lookup 1 new_server.channels ≡ none
unfolding new_server lookup
fresh = refl

opened : Reach server
opened = next begins (opens key (bytes "t1") 1 fresh)

listed : among 1 (subscribers_of key server) ≡ true
unfolding register_stream new_server subscription_key lookup insert text_eq
listed = refl

abbrev channel : Channel
channel = record { buffer = []; closed = false }

there : lookup 1 server.channels ≡ some channel
unfolding register_stream new_server lookup insert
there = refl

abbrev usage : UsageStore
usage = record {
  State = Text → ℕ;
  total = λ k s. s k;
  incr_by = λ k n s. λ j. if text_eq k j then s k + n else s j;
  expire_at = λ k t s. s;
  total-incr_by = λ k j n s. refl;
  total-expire_at = λ k j t s. refl;
}

abbrev ann : Claims
ann = record { address = bytes "0xA1"; expires_at = 100 }

process_logs_event-forward_loop_example :
    (s' : Server) × (broadcast_all
        (process_logs_event env 39 (bytes "0xA1") (bytes "0xdd") logs)
        server
      ≡ some s')
    × (ch' : Channel) × (lookup 1 s'.channels ≡ some ch')
    × (g : Forwarded usage (bytes "t1") ann) × (forward_loop usage
          (bytes "t1")
          ann
          (takes ch'.buffer)
          (record { usage = λ k. 0; sent = [] })
        ≡ (waiting, g))
    × (g.sent ≡ [] ++ map (log_event env (bytes "0xdd")) logs)
process_logs_event-forward_loop_example =
    process_logs_event-forward_loop env 39 (bytes "0xA1") (bytes "0xdd") row logs server 1 channel
      usage (bytes "t1") ann (λ k. 0) refl refl (Reach-IsValid opened) listed there (omega arith)
