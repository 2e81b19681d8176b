-- ===== src/Grpc/Streams/Refinement.antt =====
-- Who is subscribed to what, as a relation, which the server's map of lists implements.
use event_pool.Prelude.{
  ℕ, ◌≡◌, Bool, true, false, not, ◌&&◌, ◌||◌, nat_eq, text_eq, among, nat_Eq, text_Eq,
}
use event_pool.Text.{Text}
use event_pool.Grpc.Streams.{Server, subscribers_of}

-- Whether a stream is subscribed under a key.
abbrev pub Subscriptions : Type 0
Subscriptions = Text → ℕ → Bool

abbrev pub nobody : Subscriptions
nobody key stream = false

abbrev pub joined : Text → ℕ → Subscriptions → Subscriptions
joined key stream v = λ k n. (text_eq key k && nat_eq stream n) || v k n

abbrev pub left : Text → ℕ → Subscriptions → Subscriptions
left key stream v = λ k n. v k n && not (text_eq key k && nat_eq stream n)

-- A stream that is subscribed to nothing joins a key, and one that joined leaves.
pub data SpecStep (v : Subscriptions) : Subscriptions → Type 0 where
  joins :
      (key : Text) (stream : ℕ)
      → ((k : Text) → v k stream ≡ false)
      → SpecStep v (joined key stream v)
  leaves : (key : Text) (stream : ℕ) → v key stream ≡ true → SpecStep v (left key stream v)

pub data SpecReach : Subscriptions → Type 0 where
  empty : SpecReach nobody
  later : {v w : Subscriptions} → SpecReach v → SpecStep v w → SpecReach w

abbrev pub view : Server → Subscriptions
view s key stream = among stream (subscribers_of key s)
