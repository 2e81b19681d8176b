-- ===== src/Api/Events/Bounds.antt =====
-- Which pages the servers ask for.
use event_pool.Prelude.{
  ◌≡◌, refl, ap, sym, ◌∙◌, subst, inl, inr, Bool, true, false, not, Option, none, some, arith,
  if◌then◌else◌, Bool-cases, Option-cases,
}
use event_pool.Text.{Text, to_lower}
use event_pool.Grpc.Http.{is_missing, Integer, parse_int, Found, missing, query_failed, found}
use event_pool.Api.Events.{
  Database, PageQuery, natural, is_positive, read_param, paged, page_of, get_events,
  GetEventsRequest, reply_of, replied_page, get_events_rpc,
}

-- A page of one event at least, from a place that is not negative.
abbrev pub IsPage : PageQuery → Type 0
IsPage q = (is_positive q.take ≡ true) × (q.skip.negative ≡ false)

-- Two databases that answer alike to the queries for a contract and for such a page.
abbrev pub SameOnPages : Database → Database → Type 0
SameOnPages db db' =
    ((chain : Integer) (address : Text)
      → db.find_contract chain address ≡ db'.find_contract chain address)
    × ((q : PageQuery) → IsPage q → db.find_events q ≡ db'.find_events q)

abbrev the_some : Option Integer → Integer
the_some none = natural 0
the_some (some n) = n

some_inj : {m n : Integer} → some m ≡ some n → m ≡ n
some_inj e = ap the_some e

read_param-allowed :
    (default : Integer) (allowed : Integer → Bool) (value : Text) (n : Integer)
    → allowed default ≡ true
    → read_param default allowed value ≡ some n
    → allowed n ≡ true
read_param-allowed default allowed value n ok e = elim (Bool-cases (is_missing value)) [
  | inl f ↦ subst (λ m. allowed m ≡ true) (some_inj (rw f at e)) ok
  | inr f ↦ elim (Option-cases (parse_int value)) [
    | inl g ↦ cc (rw (f, g) at e)
    | inr (m, g) ↦ elim (Bool-cases (allowed m)) [
      | inl k ↦ subst (λ m'. allowed m' ≡ true) (some_inj (rw (f, g, k) at e)) k
      | inr k ↦ cc (rw (f, g, k) at e)
    ]
  ]
]

not_negative : (n : Integer) → not n.negative ≡ true → n.negative ≡ false
not_negative n h = ground arith

positive_take : (n : Integer) → is_positive (if is_positive n then n else natural 10) ≡ true
positive_take n = elim (Bool-cases (is_positive n)) [ inl e ↦ rw (e, e) refl | inr e ↦ rw e refl ]

skip_not_negative : (n : Integer) → (if is_positive n then n else natural 0).negative ≡ false
skip_not_negative n = elim (Bool-cases (is_positive n)) [
  | inl e ↦ rw e (ground arith)
  | inr e ↦ rw e refl
]

page_of-same :
    (db db' : Database) (chain : Integer) (address tx_hash : Text) (skip take : Integer)
    → SameOnPages db db'
    → is_positive take ≡ true
    → skip.negative ≡ false
    → page_of db chain address tx_hash skip take ≡ page_of db' chain address tx_hash skip take
unfolding page_of
page_of-same db db' chain address tx_hash skip take (contracts, events) t s =
    go (db.find_contract chain (to_lower address)) refl
  where
    go :
        (r : Found)
        → db.find_contract chain (to_lower address) ≡ r
        → page_of db chain address tx_hash skip take ≡ page_of db' chain address tx_hash skip take
    go missing e = rw (e, sym (contracts chain (to_lower address)) ∙ e, page_of) refl
    go query_failed e = rw (e, sym (contracts chain (to_lower address)) ∙ e, page_of) refl
    go (found contract) e =
        rw (e, sym (contracts chain (to_lower address)) ∙ e, page_of)
          (ap (λ r. paged r skip take) (events _ (t, s)))

reply_of-same :
    (db db' : Database) (chain : Integer) (address tx_hash : Text) (skip take : Integer)
    → SameOnPages db db'
    → is_positive take ≡ true
    → skip.negative ≡ false
    → reply_of db chain address tx_hash skip take ≡ reply_of db' chain address tx_hash skip take
unfolding reply_of
reply_of-same db db' chain address tx_hash skip take (contracts, events) t s =
    go (db.find_contract chain (to_lower address)) refl
  where
    go :
        (r : Found)
        → db.find_contract chain (to_lower address) ≡ r
        → reply_of db chain address tx_hash skip take ≡ reply_of db' chain address tx_hash skip take
    go missing e = rw (e, sym (contracts chain (to_lower address)) ∙ e, reply_of) refl
    go query_failed e = rw (e, sym (contracts chain (to_lower address)) ∙ e, reply_of) refl
    go (found contract) e =
        rw (e, sym (contracts chain (to_lower address)) ∙ e, reply_of)
          (ap (λ r. replied_page r skip take) (events _ (t, s)))

get_events-same :
    (db db' : Database) (address chain_id tx_hash take_param skip_param : Text)
    → SameOnPages db db'
    → get_events db address chain_id tx_hash take_param skip_param
      ≡ get_events db' address chain_id tx_hash take_param skip_param
unfolding get_events
get_events-same db db' address chain_id tx_hash take_param skip_param same =
    elim (Bool-cases (is_missing address)) [
      | inl e ↦ rw (e, get_events) refl
      | inr e ↦ elim (Option-cases (read_param (natural 39) (λ n. true) chain_id)) [
        | inl f ↦ rw (e, f, get_events) refl
        | inr (chain, f) ↦ elim (Option-cases (read_param (natural 10) is_positive take_param)) [
          | inl g ↦ rw (e, f, g, get_events) refl
          | inr (take, g) ↦
              elim (Option-cases (read_param (natural 0) (λ n. not n.negative) skip_param)) [
                | inl k ↦ rw (e, f, g, k, get_events) refl
                | inr (skip, k) ↦
                    rw (e, f, g, k, get_events)
                      (page_of-same db db' chain address tx_hash skip take same
                        (read_param-allowed (natural 10) is_positive take_param take refl g)
                        (not_negative skip (
                          read_param-allowed (natural 0) (λ n. not n.negative) skip_param skip refl
                            k)))
              ]
        ]
      ]
    ]

get_events_rpc-same :
    (db db' : Database) (req : GetEventsRequest)
    → SameOnPages db db'
    → get_events_rpc db req ≡ get_events_rpc db' req
unfolding get_events_rpc
get_events_rpc-same db db' req same = elim (Bool-cases (is_missing req.contract_address)) [
  | inl e ↦ rw (e, get_events_rpc) refl
  | inr e ↦
      rw (e, get_events_rpc)
        (reply_of-same db db' _ req.contract_address req.tx_hash _ _ same (positive_take req.take)
          (skip_not_negative req.skip))
]

-- Whatever the parameters and the request are, the servers ask the database for pages of one event at
-- least, from a place that is not negative, and for no others: their answers are the same over any two
-- databases that differ on other pages only.
pub get_events-IsPage :
    (db db' : Database) (address chain_id tx_hash take_param skip_param : Text)
    (req : GetEventsRequest)
    → SameOnPages db db'
    → (get_events db address chain_id tx_hash take_param skip_param
        ≡ get_events db' address chain_id tx_hash take_param skip_param)
      × (get_events_rpc db req ≡ get_events_rpc db' req)
get_events-IsPage db db' address chain_id tx_hash take_param skip_param req same = (
  get_events-same db db' address chain_id tx_hash take_param skip_param same,
  get_events_rpc-same db db' req same,
)
