-- ===== src/Grpc/Http/Status.antt =====
-- What the status endpoint shows of a backfill that runs.

use event_pool.Prelude.{
  ◌<◌, ◌^◌, ℕ, ◌≡◌, refl, ap, ◌∙◌, [], ◌∷◌, ◌++◌, false, Option, some, lookup-insert_self, text_Eq,
}
use event_pool.Text.{Text, bytes, to_lower}
use event_pool.Text.Decimal.{print_nat}
use event_pool.Ethereum.Log.{Contract}
use event_pool.Listener.{EventListener, Run, status_key, update_backfill_status}
use event_pool.Grpc.Http.Digits.{print_nat-present, parse_int-print_nat}
use event_pool.Grpc.Http.{
  answered, Integer, Found, found, is_missing, event_name_of, indexed_key, get_contract_status,
}

to_lower-append : (s t : Text) → to_lower (s ++ t) ≡ to_lower s ++ to_lower t
unfolding to_lower
to_lower-append [] t = refl
to_lower-append (c ∷ s) t = cc (to_lower-append s t)

lower_behind :
    (front s t : Text) → to_lower s ≡ to_lower t → to_lower (front ++ s) ≡ to_lower (front ++ t)
lower_behind front s t h = rw (to_lower-append front s, to_lower-append front t, h)

lower_before :
    (s t back : Text) → to_lower s ≡ to_lower t → to_lower (s ++ back) ≡ to_lower (t ++ back)
lower_before s t back h = rw (to_lower-append s back, to_lower-append t back, h)

-- The key of a text of the listener's chain number, its address in any case, and its signature.
indexed_key-status_key :
    (l : EventListener) (address : Text)
    → to_lower address ≡ to_lower l.contract
    → indexed_key (print_nat l.chain_id) address l.event_sig ≡ status_key l
unfolding indexed_key status_key
indexed_key-status_key l address same =
    let back = bytes "/" ++ l.event_sig in
    lower_behind (bytes "backfill_status:") _ _ (
      lower_behind (print_nat l.chain_id) _ _ (
        lower_behind (bytes "/") (address ++ back) (l.contract ++ back)
          (lower_before address l.contract back same)))

-- While a backfill is under way, the endpoint shows the block that the listener stored last, to a
-- request with the chain's number, below 2^63, as the listener prints it, the contract's address in any case, and an
-- event that the database knows under the listener's signature.
pub get_contract_status-follows :
    (find_contract : Integer → Text → Text → Found) (last_block : Integer → Option ℕ)
    (l : EventListener) (r : Run) (current last : ℕ) (address event name : Text)
    (contract : Contract)
    → is_missing address ≡ false
    → is_missing event ≡ false
    → l.chain_id < 2 ^ 63
    → event_name_of event ≡ some name
    → find_contract (record { negative = false; magnitude = l.chain_id }) (to_lower address) name
      ≡ found contract
    → last_block (record { negative = false; magnitude = l.chain_id }) ≡ some last
    → to_lower address ≡ to_lower l.contract
    → contract.event_signature ≡ l.event_sig
    → get_contract_status find_contract last_block
        (update_backfill_status l current r).cache
        (print_nat l.chain_id)
        address
        event
      ≡ answered (record {
        chain_id = print_nat l.chain_id;
        contract_address = address;
        event_name = name;
        current_block_number = current;
        last_block_number = last;
      })
unfolding get_contract_status update_backfill_status
get_contract_status-follows find_contract last_block l r current last address event name contract
      has_address has_event small named known tip same signed =
    let key : indexed_key (print_nat l.chain_id) address contract.event_signature ≡ status_key l =
      ap (indexed_key (print_nat l.chain_id) address) signed
      ∙ indexed_key-status_key l address same in
    rw (
      has_address,
      has_event,
      print_nat-present l.chain_id,
      parse_int-print_nat l.chain_id small,
      named,
      known,
      tip,
      key,
      lookup-insert_self (status_key l) current r.cache,
      get_contract_status,
    )
