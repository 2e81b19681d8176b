-- ===== src/Api/Events/Agreement.antt =====
-- The two servers answer the same events.
use event_pool.Prelude.{
  ℕ, ◌^◌, ◌<◌, ◌≡◌, refl, ap, sym, ◌∙◌, inl, inr, List, [], map, Bool, true, false, not, Option,
  none, some, arith, if◌then◌else◌, nat_eq, Bool-cases,
}
use event_pool.Text.{Text, to_lower}
use event_pool.Text.Decimal.{print_nat}
use event_pool.Grpc.Http.{
  Response, bad_request, not_found, answered, is_missing, Integer, Found, missing, query_failed,
  found,
}
use event_pool.Grpc.Http.Digits.{parse_int-print_nat, print_nat-present}
use event_pool.Api.Events.{
  Database, Page, EventLog, natural, is_positive, read_param, paged, get_events, GetEventsRequest,
  event_data, Reply, address_required, no_contract, failed, replied, replied_page, get_events_rpc,
  page_of, reply_of,
}

-- How a query spells a number: 0, which protobuf has for a field that is not set, is left out.
abbrev pub query_text : ℕ → Text
query_text n = if nat_eq n 0 then [] else print_nat n

-- The reply with the page of a response.
abbrev pub as_reply : Response Page → Reply
as_reply bad_request = address_required
as_reply not_found = no_contract
as_reply (answered p) =
    replied (record { rows = map event_data p.rows; skip = p.skip; take = p.take })
as_reply _ = failed

read_param-query_text :
    (default : Integer) (allowed : Integer → Bool) (n : ℕ)
    → n < 2 ^ 31
    → (nat_eq n 0 ≡ false → allowed (natural n) ≡ true)
    → read_param default allowed (query_text n) ≡ some (if nat_eq n 0 then default else natural n)
read_param-query_text default allowed n h ok = elim (Bool-cases (nat_eq n 0)) [
  | inl e ↦ rw e refl
  | inr e ↦ rw (e, print_nat-present n, parse_int-print_nat n (ground arith), ok e) refl
]

-- The two answers on what was read.
same_page :
    (r : Option (List EventLog)) (skip take : Integer)
    → replied_page r skip take ≡ as_reply (paged r skip take)
unfolding replied_page
same_page none skip take = refl
same_page (some rows) skip take = refl

reply_of-page_of :
    (db : Database) (chain : Integer) (address tx_hash : Text) (skip take : Integer)
    → reply_of db chain address tx_hash skip take
      ≡ as_reply (page_of db chain address tx_hash skip take)
unfolding reply_of page_of
reply_of-page_of db chain address tx_hash skip take =
    go (db.find_contract chain (to_lower address)) refl
  where
    go :
        (r : Found)
        → db.find_contract chain (to_lower address) ≡ r
        → reply_of db chain address tx_hash skip take
          ≡ as_reply (page_of db chain address tx_hash skip take)
    go missing e = rw (e, reply_of, page_of) refl
    go query_failed e = rw (e, reply_of, page_of) refl
    go (found contract) e = rw (e, reply_of, page_of) (same_page _ skip take)

positive_or-eq :
    (default n : ℕ)
    → (if is_positive (natural n) then natural n else natural default)
      ≡ (if nat_eq n 0 then natural default else natural n)
positive_or-eq default n = elim (Bool-cases (nat_eq n 0)) [ inl e ↦ rw e refl | inr e ↦ rw e refl ]

get_events-page_of :
    (db : Database) (address tx_hash : Text) (chain take skip : ℕ)
    → chain < 2 ^ 31
    → take < 2 ^ 31
    → skip < 2 ^ 31
    → is_missing address ≡ false
    → get_events db address (query_text chain) tx_hash (query_text take) (query_text skip)
      ≡ page_of db
          (if nat_eq chain 0 then natural 39 else natural chain)
          address
          tx_hash
          (if nat_eq skip 0 then natural 0 else natural skip)
          (if nat_eq take 0 then natural 10 else natural take)
unfolding get_events
get_events-page_of db address tx_hash chain take skip h h' h'' e =
    rw
      (
        e,
        read_param-query_text (natural 39) (λ n. true) chain h (λ q. refl),
        read_param-query_text (natural 10) is_positive take h' (λ q. rw q refl),
        read_param-query_text (natural 0) (λ n. not n.negative) skip h'' (λ q. refl),
        get_events,
      )
      refl

abbrev pub rpc_request : Text → Text → ℕ → ℕ → ℕ → GetEventsRequest
rpc_request address tx_hash chain take skip = record {
  contract_address = address;
  chain_id = natural chain;
  tx_hash = tx_hash;
  take = natural take;
  skip = natural skip;
}

get_events_rpc-reply_of :
    (db : Database) (address tx_hash : Text) (chain take skip : ℕ)
    → is_missing address ≡ false
    → get_events_rpc db (rpc_request address tx_hash chain take skip)
      ≡ reply_of db
          (if nat_eq chain 0 then natural 39 else natural chain)
          address
          tx_hash
          (if nat_eq skip 0 then natural 0 else natural skip)
          (if nat_eq take 0 then natural 10 else natural take)
unfolding get_events_rpc
get_events_rpc-reply_of db address tx_hash chain take skip e =
    rw (e, positive_or-eq 10 take, positive_or-eq 0 skip, get_events_rpc) refl

-- For a chain, a take and a skip of a positive int32 or left out, the gRPC server replies with the
-- page that the REST server answers, its rows converted, and fails where that one does.
pub get_events_rpc-get_events :
    (db : Database) (address tx_hash : Text) (chain take skip : ℕ)
    → chain < 2 ^ 31
    → take < 2 ^ 31
    → skip < 2 ^ 31
    → get_events_rpc db (rpc_request address tx_hash chain take skip)
      ≡ as_reply
          (get_events db address (query_text chain) tx_hash (query_text take) (query_text skip))
unfolding get_events get_events_rpc
get_events_rpc-get_events db address tx_hash chain take skip h h' h'' =
    elim (Bool-cases (is_missing address)) [
      | inl e ↦ rw (e, get_events_rpc, get_events) refl
      | inr e ↦
          get_events_rpc-reply_of db address tx_hash chain take skip e
          ∙ (reply_of-page_of db _ address tx_hash _ _
              ∙ ap as_reply
                  (sym (get_events-page_of db address tx_hash chain take skip h h' h'' e)))
    ]
