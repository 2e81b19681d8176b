-- ===== src/Grpc/Streams/Validity.antt =====
-- Every subscriber has an open channel, as streams come and go.
use event_pool.Prelude.{
  ℕ, ◌≡◌, refl, ◌⊎◌, inl, inr, List, [], ◌∷◌, ◌++◌, true, false, Option, none, some, arith,
  if◌then◌else◌, nat_eq, text_eq, nat_eq_iff, text_eq_iff, among, remove, among-snoc, among-remove,
  IsDistinct, IsDistinct-snoc, IsDistinct-remove, Bool-cases, Option-cases, lookup, insert,
  lookup-insert, lookup-insert_self, nat_Eq, text_Eq, Dict,
}
use event_pool.Text.{Text}
use event_pool.Grpc.Streams.{
  Channel, Server, subscribers_of, or_nil, register_stream, cleanup_stream, close_channel,
}

-- A channel that can be sent on.
abbrev pub IsOpen : ℕ → Dict ℕ Channel → Type 0
IsOpen stream channels = (ch : Channel) × (lookup stream channels ≡ some ch) × (ch.closed ≡ false)

-- Each subscriber has an open channel and stands once, under one key.
pub record IsValid (s : Server) : Type 0 where
  pub opened : (key : Text) (i : ℕ) → among i (subscribers_of key s) ≡ true → IsOpen i s.channels
  pub owned :
      (key key' : Text) (i : ℕ)
      → among i (subscribers_of key s) ≡ true
      → among i (subscribers_of key' s) ≡ true
      → key ≡ key'
  pub once : (key : Text) → IsDistinct (subscribers_of key s)

-- The subscribers under a key when those of another one, or its own, are set.
pub subscribers-insert :
    (key key' : Text) (subs : List ℕ) (d : Dict Text (List ℕ))
    → or_nil (lookup key' (insert key subs d))
      ≡ (if text_eq key key' then subs else or_nil (lookup key' d))
subscribers-insert key key' subs d = ground (arith, lookup-insert key key' subs d)

abbrev pub closed_of : Option Channel → Option Channel
closed_of none = none
closed_of (some ch) = some (record ch { closed = true })

-- Closing changes one channel.
pub lookup-close :
    (stream i : ℕ) (channels : Dict ℕ Channel)
    → lookup i (close_channel stream channels)
      ≡ (if nat_eq stream i then closed_of (lookup stream channels) else lookup i channels)
unfolding close_channel
lookup-close stream i channels = elim (Option-cases (lookup stream channels)) [
  | inl e ↦ rw (e, close_channel) (ground (arith, nat_eq_iff stream i))
  | inr (ch, e) ↦
      rw (e, close_channel) (lookup-insert stream i (record ch { closed = true }) channels)
]

module _ (s : Server) (v : IsValid s) where
  -- A number without a channel is no subscriber.
  pub fresh-unlisted :
      (stream : ℕ)
      → lookup stream s.channels ≡ none
      → (key : Text) → among stream (subscribers_of key s) ≡ false
  fresh-unlisted stream fresh key = elim (Bool-cases (among stream (subscribers_of key s))) [
    | inl h ↦ let (ch, e, _) = v.opened key stream h in cc
    | inr h ↦ h
  ]

  module _ (key token : Text) (stream : ℕ) where
    register_listed :
        (k : Text) (i : ℕ)
        → among i (subscribers_of k (register_stream key token stream s)) ≡ true
        → ((stream ≡ i) × (key ≡ k)) ⊎ (among i (subscribers_of k s) ≡ true)
    unfolding register_stream
    register_listed k i h = ground (
      arith,
      subscribers-insert key k (subscribers_of key s ++ stream ∷ []) s.subscribers,
      among-snoc i stream (subscribers_of key s),
      text_eq_iff key k,
    )

    register-opens :
        (i : ℕ)
        → (stream ≡ i) ⊎ IsOpen i s.channels
        → IsOpen i (register_stream key token stream s).channels
    unfolding register_stream
    register-opens i (inl e) =
        rw (← e)
          (_, lookup-insert_self stream (record { buffer = []; closed = false }) s.channels, refl)
    register-opens i (inr (ch, e, open_now)) = elim (Bool-cases (nat_eq stream i)) [
      | inl same ↦ (
        record { buffer = []; closed = false },
        rw (lookup-insert stream i (record { buffer = []; closed = false }) s.channels, same) refl,
        refl,
      )
      | inr other ↦ (
        ch,
        rw (lookup-insert stream i (record { buffer = []; closed = false }) s.channels, other) e,
        open_now,
      )
    ]

    pub register-IsValid :
        lookup stream s.channels ≡ none → IsValid (register_stream key token stream s)
    unfolding register_stream
    register-IsValid fresh = record {
      opened = λ k i h.
          register-opens i (elim (register_listed k i h) [
            | inl (e, _) ↦ inl e
            | inr old ↦ inr (v.opened k i old)
          ]);
      owned = λ k k' i h h'. one_key k k' i (register_listed k i h) (register_listed k' i h');
      once = λ k. elim (Bool-cases (text_eq key k)) [
        | inl same ↦
            rw (subscribers-insert key k (subscribers_of key s ++ stream ∷ []) s.subscribers, same)
              (IsDistinct-snoc stream (subscribers_of key s) (fresh-unlisted stream fresh key)
                (v.once key))
        | inr other ↦
            rw (subscribers-insert key k (subscribers_of key s ++ stream ∷ []) s.subscribers, other)
              (v.once k)
      ];
    }
      where
        one_key :
            (k k' : Text) (i : ℕ)
            → ((stream ≡ i) × (key ≡ k)) ⊎ (among i (subscribers_of k s) ≡ true)
            → ((stream ≡ i) × (key ≡ k')) ⊎ (among i (subscribers_of k' s) ≡ true)
            → k ≡ k'
        one_key k k' i (inl (e, a)) (inl (f, b)) = cc
        one_key k k' i (inl (e, a)) (inr h) = cc (fresh-unlisted stream fresh k')
        one_key k k' i (inr h) (inl (f, b)) = cc (fresh-unlisted stream fresh k)
        one_key k k' i (inr h) (inr h') = v.owned k k' i h h'

    cleanup_listed :
        (k : Text) (i : ℕ)
        → among stream (subscribers_of key s) ≡ true
        → among i (subscribers_of k (cleanup_stream key token stream s)) ≡ true
        → (among i (subscribers_of k s) ≡ true) × (nat_eq stream i ≡ false)
    unfolding cleanup_stream
    cleanup_listed k i m h = ground (
      arith,
      subscribers-insert key k (remove stream (subscribers_of key s)) s.subscribers,
      among-remove i stream (subscribers_of key s) (v.once key),
      text_eq_iff key k,
      v.owned key k i,
    )

    cleanup-opens :
        (i : ℕ)
        → nat_eq stream i ≡ false
        → IsOpen i s.channels
        → IsOpen i (cleanup_stream key token stream s).channels
    unfolding cleanup_stream
    cleanup-opens i other (ch, e, open_now) =
        (ch, rw (lookup-close stream i s.channels, other) e, open_now)

    pub cleanup-IsValid :
        among stream (subscribers_of key s) ≡ true → IsValid (cleanup_stream key token stream s)
    unfolding cleanup_stream
    cleanup-IsValid m = record {
      opened = λ k i h.
          let (old, other) = cleanup_listed k i m h in cleanup-opens i other (v.opened k i old);
      owned = λ k k' i h h'. v.owned k k' i (cleanup_listed k i m h).0 (cleanup_listed k' i m h').0;
      once = λ k. elim (Bool-cases (text_eq key k)) [
        | inl same ↦
            rw (subscribers-insert key k (remove stream (subscribers_of key s)) s.subscribers, same)
              (IsDistinct-remove stream (subscribers_of key s) (v.once key))
        | inr other ↦
            rw
              (subscribers-insert key k (remove stream (subscribers_of key s)) s.subscribers, other)
              (v.once k)
      ];
    }
