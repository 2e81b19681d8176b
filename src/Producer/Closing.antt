-- ===== src/Producer/Closing.antt =====
-- When an operation on the producer's channel panics, and how the goroutine ends behind `Stop`.
use event_pool.Prelude.{
  went, blocks, panics, ◌≡◌, ◌≢◌, ◌↔◌, inl, inr, refl, List, [], ◌∷◌, ◌++◌, map, Bool, true, false,
  Option, if◌then◌else◌, arith, List-cases,
}
use event_pool.Text.{Text}
use event_pool.Ethereum.Decoder.{AbiLibrary}
use event_pool.Ethereum.Client.{EventTable, Payload}
use event_pool.Producer.{
  RunnerEventProducer, handle, publish, stop, receive, leave, Act, publishes, stops, receives,
  leaves, act, run,
}
use event_pool.Producer.Queue.{handle_all}

module _ (lib : AbiLibrary) (table : EventTable) (marshal : Payload lib table → Option Text) where
  -- Whether a schedule publishes or stops behind a stop.
  abbrev pub is_late : Bool → List (Act lib table marshal) → Bool
  is_late stopped [] = false
  is_late stopped (publishes evt ∷ acts) = if stopped then true else is_late stopped acts
  is_late stopped (stops ∷ acts) = if stopped then true else is_late true acts
  is_late stopped (receives fails ∷ acts) = is_late stopped acts
  is_late stopped (leaves ∷ acts) = is_late stopped acts

  -- A schedule in which no operation is left waiting panics exactly where it publishes or stops
  -- behind a stop, or the channel was closed already and it does either.
  pub run-eq_panics :
      (acts : List (Act lib table marshal)) (p : RunnerEventProducer lib table marshal)
      → run lib table marshal acts p ≢ blocks
      → (run lib table marshal acts p ≡ panics) ↔ (is_late p.closed acts ≡ true)
  unfolding run act publish stop receive leave
  run-eq_panics [] p moves = (λ e. cc, λ e. cc)
  run-eq_panics (publishes evt ∷ acts) p moves =
      let ih = run-eq_panics acts (record p { buffer = p.buffer ++ evt ∷ [] }) in ground (arith, ih)
  run-eq_panics (stops ∷ acts) p moves =
      let ih = run-eq_panics acts (record p { closed = true }) in ground (arith, ih)
  run-eq_panics (receives fails ∷ acts) p moves = elim (List-cases p.buffer) [
    | inl none_left ↦ ground arith
    | inr (evt, rest, front) ↦
        let ih =
          run-eq_panics acts (record p {
            buffer = rest;
            messages = handle lib table marshal evt fails p.messages;
          }) in
        ground (arith, ih)
  ]
  run-eq_panics (leaves ∷ acts) p moves =
      let ih = run-eq_panics acts (record p { ended = true }) in ground (arith, ih)

  abbrev pub receive_all : List (Payload lib table × Bool) → List (Act lib table marshal)
  receive_all [] = leaves ∷ []
  receive_all ((evt, fails) ∷ sent) = receives fails ∷ receive_all sent

  drained :
      (sent : List (Payload lib table × Bool)) (p : RunnerEventProducer lib table marshal)
      → p.closed ≡ true
      → p.ended ≡ false
      → map (λ s. s.0) sent ≡ p.buffer
      → run lib table marshal (receive_all sent) p
        ≡ went (record p {
          buffer = [];
          messages = handle_all lib table marshal sent p.messages;
          ended = true;
        })
  unfolding run act receive leave
  drained [] p off on all = ground (arith)
  drained ((evt, fails) ∷ sent) p off on all =
      let ih =
        drained sent
          (record p {
            buffer = map (λ s. s.0) sent;
            messages = handle lib table marshal evt fails p.messages;
          })
          off on refl in
      ground (arith, ih)

  -- `Stop` on an open channel never waits, and behind it the goroutine, left alone, handles every event
  -- of the channel in order, whatever Redis answers, and ends.
  pub run-receive_all :
      (sent : List (Payload lib table × Bool)) (p : RunnerEventProducer lib table marshal)
      → p.closed ≡ false
      → p.ended ≡ false
      → map (λ s. s.0) sent ≡ p.buffer
      → run lib table marshal (stops ∷ receive_all sent) p
        ≡ went (record {
          buffer = [];
          closed = true;
          messages = handle_all lib table marshal sent p.messages;
          ended = true;
        })
  unfolding run act stop
  run-receive_all sent p open_ on all =
      let rest = drained sent (record p { closed = true }) refl on all in ground (arith, rest)
