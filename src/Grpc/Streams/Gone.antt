-- ===== src/Grpc/Streams/Gone.antt =====
-- What the deferred clean-up of `StreamEvents` leaves of a stream.
use event_pool.Prelude.{
  ℕ, ◌≡◌, ◌≢◌, ap, ◌∙◌, true, false, none, some, if◌then◌else◌, arith, among, remove, among-remove,
  IsDistinct, lookup, lookup-insert_self, nat_Eq, text_Eq, ==_refl, nat_eq, nat_eq_iff,
  Option-cases, Bool-cases, inl, inr, delete, lookup-delete_self, Dict,
}
use event_pool.Text.{Text}
use event_pool.Grpc.Streams.{Server, or_nil, subscribers_of, cleanup_stream}
use event_pool.Grpc.Streams.Validity.{closed_of, lookup-close}

-- Behind the clean-up the stream is no subscriber of its key, its channel is closed, its context cancelled,
-- and its token no longer leads to its connection.
pub record IsGone (key token : Text) (stream : ℕ) (between after : Server) : Type 0 where
  pub unlisted : among stream (subscribers_of key after) ≡ false
  pub shut : lookup stream after.channels ≡ closed_of (lookup stream between.channels)
  pub unconnected : lookup token after.active_conns ≢ some stream
  pub done : among stream after.cancelled ≡ true

disconnected :
    (token : Text) (stream : ℕ) (conns : Dict Text ℕ)
    → lookup token (elim (lookup token conns) [
      | none ↦ conns
      | some conn ↦ if nat_eq conn stream then delete token conns else conns
    ])
      ≢ some stream
disconnected token stream conns = elim (Option-cases (lookup token conns)) [
  | inl e ↦ rw e (λ h. cc (e, h))
  | inr (conn, e) ↦ elim (Bool-cases (nat_eq conn stream)) [
    | inl same ↦ rw (e, same, lookup-delete_self token conns) (λ h. cc h)
    | inr apart ↦ rw (e, apart) (λ h. ground (arith, nat_eq_iff conn stream, e, h))
  ]
]

pub cleanup_stream-IsGone :
    (key token : Text) (stream : ℕ) (s : Server)
    → IsDistinct (subscribers_of key s)
    → IsGone key token stream s (cleanup_stream key token stream s)
unfolding cleanup_stream
cleanup_stream-IsGone key token stream s once = record {
  unlisted =
      ap (λ o. among stream (or_nil o))
        (lookup-insert_self key (remove stream (subscribers_of key s)) s.subscribers)
      ∙ among-remove stream stream (subscribers_of key s) once
      ∙ ap (λ b. if b then false else among stream (subscribers_of key s)) (==_refl stream);
  shut = ground (arith, lookup-close stream stream s.channels, nat_eq_iff stream stream);
  unconnected = disconnected token stream s.active_conns;
  done = ap (λ b. if b then true else among stream s.cancelled) (==_refl stream);
}
