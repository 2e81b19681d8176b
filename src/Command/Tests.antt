-- ===== src/Command/Tests.antt =====
-- A command whose file of the secret ends with a line feed, with a library that writes the secret into
-- its tokens.
use event_pool.Prelude.{
  ℕ, ◌≡◌, ◌↔◌, refl, ap, ◌∙◌, List, [], ◌∷◌, Bool, true, false, ◌||◌, some, none, text_eq,
  text_eq_iff, if◌then◌else◌, arith, lookup, insert, nat_Eq,
}
use event_pool.Text.{Text, bytes, has_prefix}
use event_pool.Text.Space.{is_padded, trim_space, trim_left, trim_right}
use event_pool.Grpc.Auth.{
  Claims, failed, token, Parser, accepted, bearer, KeyStore, server_validate_jwt,
}
use event_pool.Grpc.Http.{Signer, Issued, generate_jwt, request_token}
use event_pool.Api.Access.{denied, is_missing, auth_middleware}
use event_pool.Command.{
  contents, Surroundings, Wiring, served, read_secret, connect_clients, wire, serve_open, run_serve,
}
use event_pool.Command.Answers.{IsServed, run_serve-served}
use event_pool.Command.Secrets.{Signing, run_serve-secrets}

abbrev listed : Text → List Text → Bool
listed k [] = false
listed k (j ∷ js) = text_eq j k || listed k js

abbrev keys : KeyStore
keys = record { State = List Text; has = listed; put = λ k s. k ∷ s; has-put = λ k j s. refl }

abbrev ann : Text
ann = bytes "0xA1"

-- One user's tokens: the time of expiry, and the secret.
abbrev sign : Signer
sign claims now secret =
    if text_eq claims.address ann then some (46 ∷ claims.expires_at ∷ secret) else none

abbrev parse : Parser
parse [] secret = failed
parse (c ∷ []) secret = failed
parse (c ∷ e ∷ rest) secret =
    if text_eq rest secret then token (record { address = ann; expires_at = e }) true else failed

signs_own :
    (claims : Claims) (now : ℕ) (secret given : Text)
    → sign claims now secret ≡ some given
    → (claims.address ≡ ann) × (given ≡ 46 ∷ claims.expires_at ∷ secret)
signs_own claims now secret given e = ground (arith, text_eq_iff claims.address ann)

signing : Signing sign parse 5
unfolding has_prefix
signing = record {
  own = λ claims now secret given e fresh.
      let (whose, what) = signs_own claims now secret given e in
      let same : text_eq secret secret ≡ true = (text_eq_iff secret secret).1 refl in
      ap (λ t. parse t secret) what ∙ rw (same, whose) refl;
  foreign = λ claims now secret other given e differs.
      let (whose, what) = signs_own claims now secret given e in
      ap (λ t. parse t other) what ∙ ground (arith, text_eq_iff secret other);
  shape = λ claims now secret given e.
      let (whose, what) = signs_own claims now secret given e in
      (ap (λ t. has_prefix t bearer) what, ap is_missing what);
}

abbrev around : Surroundings
around = record {
  config = some (record {
    secret_key = bytes "gate";
    session_contract = [];
    node_contract = [];
    chain_id = 39;
    chains = (39, record { rpc_url = bytes "u"; block_time = 3 }) ∷ [];
  });
  ping_fails = false;
  secret_file = contents (115 ∷ 10 ∷ []);
  database_fails = false;
  client_fails = λ chain_id config. false;
}

abbrev wiring : Wiring
wiring = record {
  rest_secret = 115 ∷ 10 ∷ [];
  grpc_secret = 115 ∷ [];
  gateway_secret = bytes "gate";
  session_client = some (record { rpc_url = bytes "u"; block_time = 3 });
}

around-served : (run_serve around).0 ≡ served wiring
unfolding run_serve read_secret serve_open connect_clients wire lookup insert trim_space trim_left
    trim_right
around-served = refl

around-IsServed : ((w : Wiring) × ((run_serve around).0 ≡ served w)) ↔ IsServed around
around-IsServed = run_serve-served around

abbrev issued : Issued
issued = record { token = 46 ∷ 17 ∷ 115 ∷ []; expires_at = 17 }

issues : request_token sign (115 ∷ []) 7 ann 10 ≡ some issued
unfolding request_token generate_jwt text_eq
issues = refl

run_serve-secrets_example :
    (server_validate_jwt keys
        (record { parse = parse; jwt_secret = 115 ∷ []; gateway_secret = some (bytes "gate") })
        []
        issued.token
      ≡ accepted (record { address = ann; expires_at = 17 }))
    × ((auth_middleware parse (115 ∷ 10 ∷ []) issued.token ≡ denied)
        ↔ (is_padded (115 ∷ 10 ∷ []) ≡ true))
run_serve-secrets_example =
    run_serve-secrets sign parse 5 signing keys around wiring 7 10 ann issued [] around-served
      issues (omega arith) refl
