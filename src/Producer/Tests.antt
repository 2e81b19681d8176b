-- ===== src/Producer/Tests.antt =====
-- Runs of the producer: an event that Redis takes, one that it refuses, and a publish behind a stop.
use event_pool.Prelude.{
  went, blocks, panics, ◌≡◌, ◌≢◌, ◌↔◌, refl, List, [], ◌∷◌, true, false, Option, some,
}
use event_pool.Text.{Text, bytes, to_lower}
use event_pool.Text.Decimal.{print_nat, print_loop}
use event_pool.Ethereum.Decoder.Samples.{sample_library}
use event_pool.Ethereum.Client.Samples.{sample_table}
use event_pool.Ethereum.Client.{Payload}
use event_pool.Producer.{
  RunnerEventProducer, new_runner_event_producer, channel_key, handle, publish, stop, receive,
  leave, Act, publishes, stops, receives, leaves, act, run,
}
use event_pool.Producer.Queue.{IsQueue, run-new_runner_event_producer}
use event_pool.Producer.Closing.{is_late, run-eq_panics, run-receive_all}

abbrev transfer : Payload sample_library sample_table
transfer = record {
  params = [];
  transaction_hash = bytes "0xf";
  timestamp = 9;
  block_number = 12;
  block_hash = bytes "0xb";
  contract_address = bytes "0xA1";
  event_name = bytes "Transfer";
  event_signature = bytes "0xdd";
  event_data = [];
  event_log_index = 0;
  chain_id = 39;
}

abbrev approval : Payload sample_library sample_table
approval = record transfer { event_name = bytes "Approval" }

abbrev marshal : Payload sample_library sample_table → Option Text
marshal evt = some (bytes "{}")

abbrev schedule : List (Act sample_library sample_table marshal)
schedule = publishes transfer ∷ publishes approval ∷ receives false ∷ []

abbrev one_left : RunnerEventProducer sample_library sample_table marshal
one_left = record {
  buffer = approval ∷ [];
  closed = false;
  messages = (bytes "event_log_39_0xa1_transfer", bytes "{}") ∷ [];
  ended = false;
}

run-schedule :
    run sample_library sample_table marshal schedule
      (new_runner_event_producer sample_library sample_table marshal)
    ≡ went one_left
unfolding run act publish stop receive leave new_runner_event_producer handle channel_key to_lower
    print_nat print_loop
run-schedule = refl

run-new_runner_event_producer_example :
    IsQueue sample_library sample_table marshal schedule
      (new_runner_event_producer sample_library sample_table marshal)
      one_left
run-new_runner_event_producer_example =
    run-new_runner_event_producer sample_library sample_table marshal schedule one_left run-schedule

-- Redis refuses the event that was left, and the goroutine ends.
drains :
    run sample_library sample_table marshal (stops ∷ receives true ∷ leaves ∷ []) one_left
    ≡ went (record { buffer = []; closed = true; messages = one_left.messages; ended = true })
unfolding handle
drains =
    run-receive_all sample_library sample_table marshal ((approval, true) ∷ []) one_left refl refl
      refl

late_moves :
    run sample_library sample_table marshal (stops ∷ publishes approval ∷ []) one_left ≢ blocks
unfolding run act publish stop
late_moves e = cc

run-eq_panics_example :
    (run sample_library sample_table marshal (stops ∷ publishes approval ∷ []) one_left ≡ panics)
    ↔ (is_late sample_library sample_table marshal false (stops ∷ publishes approval ∷ []) ≡ true)
run-eq_panics_example =
    run-eq_panics sample_library sample_table marshal (stops ∷ publishes approval ∷ []) one_left
      late_moves
