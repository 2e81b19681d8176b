-- ===== src/Grpc/Streams/Sessions.antt =====
-- The server as streams open and close, and events are sent and taken from the channels.
use event_pool.Prelude.{
  ℕ, ◌≡◌, refl, subst, ◌∙◌, inl, inr, List, [], ◌∷◌, Bool, true, false, none, some, arith, nat_eq,
  nat_eq_iff, among, Bool-cases, lookup, insert, lookup-insert, nat_Eq, text_Eq, Dict,
}
use event_pool.Text.{Text}
use event_pool.Grpc.Streams.{
  Event, Channel, Server, subscribers_of, register_stream, cleanup_stream, broadcast_event,
}
use event_pool.Grpc.Streams.Validity.{IsOpen, IsValid, register-IsValid, cleanup-IsValid}
use event_pool.Grpc.Streams.Delivery.{received, deliver, broadcast_event-delivers}

unfoldable pub new_server : Server
new_server = record { subscribers = []; active_conns = []; channels = []; cancelled = [] }

-- A stream that opens has a channel of its own; one that closes is subscribed.
pub data Step (s : Server) : Server → Type 0 where
  opens :
      (key token : Text) (stream : ℕ)
      → lookup stream s.channels ≡ none
      → Step s (register_stream key token stream s)
  closes :
      (key token : Text) (stream : ℕ)
      → among stream (subscribers_of key s) ≡ true
      → Step s (cleanup_stream key token stream s)
  sends :
      (chain_id : ℕ) (address name : Text) (event : Event) {s' : Server}
      → broadcast_event chain_id address name event s ≡ some s'
      → Step s s'
  takes :
      (stream : ℕ) (ch : Channel) (event : Event) (rest : List Event)
      → lookup stream s.channels ≡ some ch
      → ch.buffer ≡ event ∷ rest
      → Step s (record s { channels = insert stream (record ch { buffer = rest }) s.channels })

pub data Reach : Server → Type 0 where
  begins : Reach new_server
  next : {s s' : Server} → Reach s → Step s s' → Reach s'

received-IsOpen :
    (b : Bool) (event : Event) (i : ℕ) (channels channels' : Dict ℕ Channel)
    → lookup i channels' ≡ received b event (lookup i channels)
    → IsOpen i channels
    → IsOpen i channels'
received-IsOpen false event i channels channels' h (ch, e, o) = (ch, h ∙ e, o)
received-IsOpen true event i channels channels' h (ch, e, o) =
    (deliver event ch, h ∙ rw e refl, ground arith)

-- The same subscribers, and channels that at most received an event.
pub delivered-IsValid :
    (s s' : Server) (b : ℕ → Bool) (event : Event)
    → s'.subscribers ≡ s.subscribers
    → ((i : ℕ) → lookup i s'.channels ≡ received (b i) event (lookup i s.channels))
    → IsValid s
    → IsValid s'
delivered-IsValid s s' b event q l v = record {
  opened = λ key i h.
      received-IsOpen (b i) event i s.channels s'.channels (l i) (v.opened key i (rw q at h));
  owned = λ key key' i h h'. v.owned key key' i (rw q at h) (rw q at h');
  once = λ key. rw q (v.once key);
}

take-IsOpen :
    (stream i : ℕ) (ch : Channel) (rest : List Event) (channels : Dict ℕ Channel)
    → lookup stream channels ≡ some ch
    → IsOpen i channels
    → IsOpen i (insert stream (record ch { buffer = rest }) channels)
take-IsOpen stream i ch rest channels there (ch', e, o) = elim (Bool-cases (nat_eq stream i)) [
  | inl same ↦ (
    record ch { buffer = rest },
    rw (lookup-insert stream i (record ch { buffer = rest }) channels, same) refl,
    ground (arith, nat_eq_iff stream i),
  )
  | inr other ↦
      (ch', rw (lookup-insert stream i (record ch { buffer = rest }) channels, other) e, o)
]

Step-IsValid : {s s' : Server} → Step s s' → IsValid s → IsValid s'
Step-IsValid {s} (opens key token stream fresh) v = register-IsValid s v key token stream fresh
Step-IsValid {s} (closes key token stream m) v = cleanup-IsValid s v key token stream m
Step-IsValid {s} (sends chain_id address name event {s' = t} e) v =
    let (t', e', l, q, _, _) = broadcast_event-delivers chain_id address name event s v in
    let same : t' ≡ t = cc in subst IsValid same (delivered-IsValid s t' _ event q l v)
Step-IsValid {s} (takes stream ch event rest there e) v = record {
  opened = λ key i h. take-IsOpen stream i ch rest s.channels there (v.opened key i h);
  owned = v.owned;
  once = v.once;
}

new-IsValid : IsValid new_server
unfolding new_server lookup
new-IsValid = record { opened = λ k i h. cc; owned = λ k k' i h h'. cc; once = λ k. tt }

-- However streams open and close, events are broadcast and taken: each subscriber has an open channel,
-- and is subscribed once, under one key.
pub Reach-IsValid : {s : Server} → Reach s → IsValid s
Reach-IsValid begins = new-IsValid
Reach-IsValid (next r st) = Step-IsValid st (Reach-IsValid r)
