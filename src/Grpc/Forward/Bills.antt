-- ===== src/Grpc/Forward/Bills.antt =====
-- What a stream's client is sent, and what is counted for it.
use mathlib.Core.List.{append_assoc, append-nil}
use event_pool.Prelude.{
  ℕ, ◌+◌, ◌≡◌, refl, ap, sym, ◌∙◌, inl, inr, List, [], ◌∷◌, ◌++◌, Bool, false, arith, if◌then◌else◌,
  nat_eq, text_eq, length, All, Bool-cases, ==_refl, text_Eq,
}
use event_pool.Text.{Text}
use event_pool.Grpc.Auth.{Claims}
use event_pool.Grpc.Streams.{Event}
use event_pool.Grpc.Forward.{
  UsageStore, usage_key, Turn, timer_fires, context_done, receives, Ending, waiting, clean, unclean,
  Forwarded, count_bytes, forward_loop,
}

abbrev pub bytes_of : List Event → ℕ
bytes_of [] = 0
bytes_of (e ∷ es) = length e.content + bytes_of es

-- No increment fails.
abbrev pub IsCounted : Turn → Type 0
IsCounted (receives event incr_fails expire_fails send_fails) = incr_fails ≡ false
IsCounted _ = Unit

abbrev pub events_of : List Turn → List Event
events_of [] = []
events_of (receives event incr_fails expire_fails send_fails ∷ turns) = event ∷ events_of turns
events_of (timer_fires ∷ turns) = events_of turns
events_of (context_done ∷ turns) = events_of turns

-- The events that are counted beside those that were sent, and those that were not reached.
abbrev pub Unsent : Ending → List Event → List Event → Type 0
Unsent waiting extra rest = (extra ≡ []) × (rest ≡ [])
Unsent clean extra rest = extra ≡ []
Unsent unclean extra rest = length extra ≡ 1

module _ (redis : UsageStore) (token : Text) (claims : Claims) where
  abbrev pub Bills :
      List Event → Forwarded redis token claims → Ending × Forwarded redis token claims → Type 0
  Bills events f (ending, g) =
      (front extra rest : List Event) × (events ≡ front ++ (extra ++ rest))
      × (g.sent ≡ f.sent ++ front)
      × Unsent ending extra rest
      × (redis.total (usage_key token) g.usage
          ≡ redis.total (usage_key token) f.usage + bytes_of (front ++ extra))
      × ((j : Text)
          → text_eq (usage_key token) j ≡ false
          → redis.total j g.usage ≡ redis.total j f.usage)

  total-count_bytes :
      (event : Event) (expire_fails : Bool) (s : redis.State) (j : Text)
      → redis.total j (count_bytes redis token claims event false expire_fails s) ≡ (
          if text_eq (usage_key token) j
          then redis.total (usage_key token) s + length event.content
          else redis.total j s)
  unfolding count_bytes
  total-count_bytes event expire_fails s j =
      let key = usage_key token in
      let n = length event.content in
      let s' = redis.incr_by key n s in
      let counted = redis.total-incr_by key j n s in
      elim (Bool-cases (nat_eq (redis.total key s') n)) [
        | inr old ↦ rw (old, count_bytes) counted
        | inl new ↦ elim (Bool-cases expire_fails) [
          | inl e ↦ rw (new, e, count_bytes) counted
          | inr e ↦
              rw (new, e, count_bytes)
                (redis.total-expire_at key j (claims.expires_at + 600) s' ∙ counted)
        ]
      ]

  counted_here :
      (event : Event) (expire_fails : Bool) (s : redis.State)
      → redis.total (usage_key token) (count_bytes redis token claims event false expire_fails s)
        ≡ redis.total (usage_key token) s + length event.content
  counted_here event expire_fails s =
      total-count_bytes event expire_fails s (usage_key token) ∙ rw (==_refl (usage_key token)) refl

  -- Nothing more is sent or counted.
  Bills-end :
      (ending : Ending) (events : List Event) (f : Forwarded redis token claims)
      → Unsent ending [] events
      → Bills events f (ending, f)
  Bills-end ending events f h =
      ([], [], events, refl, sym (append-nil _), h, omega arith, λ j e. refl)

  -- An event that was sent, in front of the others.
  Bills-cons :
      (event : Event) (events : List Event) (expire_fails : Bool) (f : Forwarded redis token claims)
      (r : Ending × Forwarded redis token claims)
      → Bills events
          (record {
            usage = count_bytes redis token claims event false expire_fails f.usage;
            sent = f.sent ++ event ∷ [];
          })
          r
      → Bills (event ∷ events) f r
  Bills-cons event events expire_fails f (ending, g) (front, extra, rest, w, e, u, total, others) =
      let counted = total-count_bytes event expire_fails f.usage in
      (
        event ∷ front,
        extra,
        rest,
        ap (λ l. event ∷ l) w,
        e ∙ append_assoc f.sent (event ∷ []) front,
        u,
        omega (arith, total, counted_here event expire_fails f.usage),
        λ j q. others j q ∙ (counted j ∙ rw q refl),
      )

  -- Where no increment fails, whatever else fails: the client is sent the first of the events that were
  -- received, all of them while the handler goes on, and the bytes of what it was sent are added to the
  -- token's count once, with those of the next event where the send of that one failed, and of no
  -- others; no other count changes.
  pub forward_loop-Bills :
      (turns : List Turn) (f : Forwarded redis token claims)
      → All IsCounted turns
      → Bills (events_of turns) f (forward_loop redis token claims turns f)
  unfolding forward_loop
  forward_loop-Bills [] f h = Bills-end waiting [] f (refl, refl)
  forward_loop-Bills (timer_fires ∷ turns) f h = Bills-end clean (events_of turns) f refl
  forward_loop-Bills (context_done ∷ turns) f h = Bills-end clean (events_of turns) f refl
  forward_loop-Bills (receives event incr_fails expire_fails send_fails ∷ turns) f (k, h) =
      elim (Bool-cases send_fails) [
        | inl q ↦
            rw (k, q, forward_loop)
              (
                [],
                event ∷ [],
                events_of turns,
                refl,
                sym (append-nil _),
                refl,
                omega (arith, counted_here event expire_fails f.usage),
                λ j e. total-count_bytes event expire_fails f.usage j ∙ rw e refl,
              )
        | inr q ↦
            rw (k, q, forward_loop)
              (Bills-cons event (events_of turns) expire_fails f _ (forward_loop-Bills turns _ h))
      ]
