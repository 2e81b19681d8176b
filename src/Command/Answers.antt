-- ===== src/Command/Answers.antt =====
-- When the command serves: what each party has to answer.
use event_pool.Prelude.{
  ℕ, ◌≡◌, ◌≢◌, ◌↔◌, inl, inr, refl, [], ◌∷◌, Bool, false, none, some, arith, All, Dict, nat_Eq,
  insert, Bool-cases,
}
use event_pool.Text.{Text}
use event_pool.Command.{
  ChainConfig, Config, FileRead, contents, not_exist, unreadable, Surroundings, Wiring, served,
  read_secret, connect_clients, wire, serve_open, run_serve,
}

-- Every party answers; a file of the secret that is not there counts as an empty one.
pub record IsServed (around : Surroundings) : Type 0 where
  pub cfg : Config
  pub loads : around.config ≡ some cfg
  pub pings : around.ping_fails ≡ false
  pub reads : around.secret_file ≢ unreadable
  pub opens : around.database_fails ≡ false
  pub connects : All (λ (chain_id, config). around.client_fails chain_id config ≡ false) cfg.chains

-- The loop over the chains stops nowhere.
abbrev pub Connects : (ℕ → ChainConfig → Bool) → Dict ℕ ChainConfig → Type 0
Connects fails chains = (connect_clients fails chains []).failed ≡ none

connect_clients-All :
    (fails : ℕ → ChainConfig → Bool) (chains clients : Dict ℕ ChainConfig)
    → ((connect_clients fails chains clients).failed ≡ none)
      ↔ All (λ (chain_id, config). fails chain_id config ≡ false) chains
unfolding connect_clients
connect_clients-All fails [] clients = (λ e. tt, λ h. refl)
connect_clients-All fails ((chain_id, config) ∷ chains) clients =
    let (forth, back) = connect_clients-All fails chains (insert chain_id config clients) in
    elim (Bool-cases (fails chain_id config)) [
      | inl bad ↦ (λ h. cc (rw bad at h), λ (good, h). cc (bad, good))
      | inr good ↦ (λ h. (good, forth (rw good at h)), λ (g, h). rw good (back h))
    ]

run_serve-answers :
    (around : Surroundings) (w : Wiring)
    → (run_serve around).0 ≡ served w
    → (cfg : Config) × (around.config ≡ some cfg)
      × (around.ping_fails ≡ false)
      × (around.secret_file ≢ unreadable)
      × (around.database_fails ≡ false)
      × Connects around.client_fails cfg.chains
unfolding run_serve serve_open read_secret
run_serve-answers around w e = ground arith

read_secret-some :
    (file : FileRead)
    → file ≢ unreadable
    → (jwt_secret : Text) × (read_secret file ≡ some jwt_secret)
unfolding read_secret
read_secret-some (contents jwt_secret) h = (jwt_secret, refl)
read_secret-some not_exist h = ([], refl)
read_secret-some unreadable h = absurd (h refl)

-- The command ends without an error exactly where every party answers: the configuration, Redis, the
-- file of the secret, which may be missing, the database and the node of each chain.
pub run_serve-served :
    (around : Surroundings) → ((w : Wiring) × ((run_serve around).0 ≡ served w)) ↔ IsServed around
unfolding run_serve serve_open
run_serve-served around = (forth, back)
  where
    forth : ((w : Wiring) × ((run_serve around).0 ≡ served w)) → IsServed around
    forth (w, e) =
        let (cfg, loads, pings, reads, opens, connects) = run_serve-answers around w e in
        record {
          cfg = cfg;
          loads = loads;
          pings = pings;
          reads = reads;
          opens = opens;
          connects = (connect_clients-All around.client_fails cfg.chains []).0 connects;
        }

    back : IsServed around → (w : Wiring) × ((run_serve around).0 ≡ served w)
    back v =
        let (jwt_secret, read) = read_secret-some around.secret_file v.reads in
        let connects = (connect_clients-All around.client_fails v.cfg.chains []).1 v.connects in
        let clients = (connect_clients around.client_fails v.cfg.chains []).eth_clients in
        (
          wire v.cfg jwt_secret clients,
          rw (v.loads, v.pings, read, v.opens, connects, run_serve, serve_open),
        )
