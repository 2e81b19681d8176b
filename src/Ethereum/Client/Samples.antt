-- ===== src/Ethereum/Client/Samples.antt =====
-- A table of event logs that is the list of its rows' keys, for the tests.
use event_pool.Prelude.{◌≡◌, refl, List, [], ◌∷◌, Bool, true, false, ◌||◌, arith}
use event_pool.Ethereum.Client.{RowKey, same_key, LogKey, log_key, same_log, EventTable}

abbrev pub listed : RowKey → List RowKey → Bool
listed k [] = false
listed k (j ∷ js) = same_key j k || listed k js

abbrev pub listed_log : LogKey → List RowKey → Bool
listed_log k [] = false
listed_log k (j ∷ js) = same_log (log_key j) k || listed_log k js

pub listed-listed_log :
    (k : RowKey) (js : List RowKey) → listed k js ≡ true → listed_log (log_key k) js ≡ true
listed-listed_log k [] h = cc
listed-listed_log k (j ∷ js) h = ground (arith, listed-listed_log k js)

abbrev pub sample_table : EventTable
sample_table = record {
  Rows = List RowKey;
  has = listed;
  has_log = listed_log;
  create = λ k content rows. k ∷ rows;
  has-create = λ k j content rows. refl;
  has_log-create = λ k j content rows. refl;
  has-has_log = listed-listed_log;
}
