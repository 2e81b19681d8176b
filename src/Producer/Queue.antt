-- ===== src/Producer/Queue.antt =====
-- The producer against a queue: what goes in comes out in order.
use mathlib.Core.List.{append_assoc, append-nil}
use event_pool.Prelude.{
  went, ◌≤◌, ◌<◌, ◌≡◌, refl, ap, subst, sym, ◌∙◌, List, [], ◌∷◌, ◌++◌, map, Bool, true, Option,
  length, length-append, arith,
}
use event_pool.Text.{Text}
use event_pool.Ethereum.Decoder.{AbiLibrary}
use event_pool.Ethereum.Client.{EventTable, Payload}
use event_pool.Producer.{
  Message, producer_size, RunnerEventProducer, new_runner_event_producer, handle, publish, stop,
  receive, leave, Act, publishes, stops, receives, leaves, act, run,
}

module _ (lib : AbiLibrary) (table : EventTable) (marshal : Payload lib table → Option Text) where
  -- The events that a schedule publishes, in its order.
  abbrev pub published : List (Act lib table marshal) → List (Payload lib table)
  published [] = []
  published (publishes evt ∷ acts) = evt ∷ published acts
  published (stops ∷ acts) = published acts
  published (receives fails ∷ acts) = published acts
  published (leaves ∷ acts) = published acts

  -- What Redis answers in a schedule, in its order.
  abbrev pub answers : List (Act lib table marshal) → List Bool
  answers [] = []
  answers (publishes evt ∷ acts) = answers acts
  answers (stops ∷ acts) = answers acts
  answers (receives fails ∷ acts) = fails ∷ answers acts
  answers (leaves ∷ acts) = answers acts

  -- The messages after some events, each with the answer of Redis.
  abbrev pub handle_all : List (Payload lib table × Bool) → List Message → List Message
  handle_all [] messages = messages
  handle_all ((evt, fails) ∷ rest) messages =
      handle_all rest (handle lib table marshal evt fails messages)

  -- From `p` on, the producer has handled `sent` while `added` was published, and reached `q`.
  pub record IsQueue (acts : List (Act lib table marshal))
      (p q : RunnerEventProducer lib table marshal) : Type 0 where
    pub sent : List (Payload lib table × Bool)
    pub in_order : map (λ s. s.0) sent ++ q.buffer ≡ p.buffer ++ published acts
    pub each_answer : map (λ s. s.1) sent ≡ answers acts
    pub all_sent : q.messages ≡ handle_all sent p.messages
    pub bounded : length q.buffer ≤ producer_size

  publish-went :
      (evt : Payload lib table) (p q : RunnerEventProducer lib table marshal)
      → publish lib table marshal evt p ≡ went q
      → (length p.buffer < producer_size) × (q ≡ record p { buffer = p.buffer ++ evt ∷ [] })
  unfolding publish
  publish-went evt p q e = ground arith

  stop-went :
      (p q : RunnerEventProducer lib table marshal)
      → stop lib table marshal p ≡ went q
      → q ≡ record p { closed = true }
  unfolding stop
  stop-went p q e = ground arith

  leave-went :
      (p q : RunnerEventProducer lib table marshal)
      → leave lib table marshal p ≡ went q
      → q ≡ record p { ended = true }
  unfolding leave
  leave-went p q e = ground arith

  receive-went :
      (fails : Bool) (p q : RunnerEventProducer lib table marshal)
      → receive lib table marshal fails p ≡ went q
      → (evt : Payload lib table) × (rest : List (Payload lib table)) × (p.buffer ≡ evt ∷ rest)
        × (q ≡ record p { buffer = rest; messages = handle lib table marshal evt fails p.messages })
  unfolding receive
  receive-went fails p q e = ground arith

  pub run-went :
      (a : Act lib table marshal) (acts : List (Act lib table marshal))
      (p r : RunnerEventProducer lib table marshal)
      → run lib table marshal (a ∷ acts) p ≡ went r
      → (q : RunnerEventProducer lib table marshal) × (act lib table marshal a p ≡ went q)
        × (run lib table marshal acts q ≡ went r)
  unfolding run
  run-went a acts p r e = ground arith

  -- An operation that moves no event.
  IsQueue-quiet :
      (a : Act lib table marshal) (acts : List (Act lib table marshal))
      (p q r : RunnerEventProducer lib table marshal)
      → q.buffer ≡ p.buffer
      → q.messages ≡ p.messages
      → published (a ∷ acts) ≡ published acts
      → answers (a ∷ acts) ≡ answers acts
      → IsQueue acts q r
      → IsQueue (a ∷ acts) p r
  IsQueue-quiet a acts p q r same unsent none_in none_out v = record {
    sent = v.sent;
    in_order =
        v.in_order ∙ ap (λ b. b ++ published acts) same ∙ ap (λ t. p.buffer ++ t) (sym none_in);
    each_answer = v.each_answer ∙ sym none_out;
    all_sent = v.all_sent ∙ ap (handle_all v.sent) unsent;
    bounded = v.bounded;
  }

  pub run-IsQueue :
      (acts : List (Act lib table marshal)) (p r : RunnerEventProducer lib table marshal)
      → length p.buffer ≤ producer_size
      → run lib table marshal acts p ≡ went r
      → IsQueue acts p r
  unfolding run act
  run-IsQueue [] p r small e =
      let same : p ≡ r = cc in
      subst (λ r. IsQueue [] p r) same
        record {
          sent = [];
          in_order = sym (append-nil p.buffer);
          each_answer = refl;
          all_sent = refl;
          bounded = small;
        }
  run-IsQueue (publishes evt ∷ acts) p r small e =
      let (q, first, rest) = run-went (publishes evt) acts p r e in
      let (room, to) = publish-went evt p q first in
      let fits : length q.buffer ≤ producer_size =
        omega (arith, ap (λ q. length q.buffer) to, length-append p.buffer (evt ∷ [])) in
      let ih = run-IsQueue acts q r fits rest in
      record {
        sent = ih.sent;
        in_order =
            ih.in_order
            ∙ ap (λ q. q.buffer ++ published acts) to
            ∙ append_assoc p.buffer (evt ∷ []) (published acts);
        each_answer = ih.each_answer;
        all_sent = ih.all_sent ∙ ap (λ q. handle_all ih.sent q.messages) to;
        bounded = ih.bounded;
      }
  run-IsQueue (stops ∷ acts) p r small e =
      let (q, first, rest) = run-went stops acts p r e in
      let to = stop-went p q first in
      IsQueue-quiet stops acts p q r (ap (λ q. q.buffer) to) (ap (λ q. q.messages) to) refl refl
        (run-IsQueue acts q r (rw to small) rest)
  run-IsQueue (leaves ∷ acts) p r small e =
      let (q, first, rest) = run-went leaves acts p r e in
      let to = leave-went p q first in
      IsQueue-quiet leaves acts p q r (ap (λ q. q.buffer) to) (ap (λ q. q.messages) to) refl refl
        (run-IsQueue acts q r (rw to small) rest)
  run-IsQueue (receives fails ∷ acts) p r small e =
      let (q, first, rest) = run-went (receives fails) acts p r e in
      let (evt, later, front, to) = receive-went fails p q first in
      let fits : length q.buffer ≤ producer_size =
        omega (arith, ap (λ q. length q.buffer) to, ap length front) in
      let ih = run-IsQueue acts q r fits rest in
      record {
        sent = (evt, fails) ∷ ih.sent;
        in_order =
            ap (λ t. evt ∷ t) (ih.in_order ∙ ap (λ q. q.buffer ++ published acts) to)
            ∙ ap (λ t. t ++ published acts) (sym front);
        each_answer = ap (λ t. fails ∷ t) ih.each_answer;
        all_sent = ih.all_sent ∙ ap (λ q. handle_all ih.sent q.messages) to;
        bounded = ih.bounded;
      }

  -- From its start, whatever the order of the calls, the producer handles the events in the order in
  -- which they were published, each once, those still to be handled stand in the channel in that
  -- order, at most 100, and what reached Redis is exactly what handling them sends.
  pub run-new_runner_event_producer :
      (acts : List (Act lib table marshal)) (p : RunnerEventProducer lib table marshal)
      → run lib table marshal acts (new_runner_event_producer lib table marshal) ≡ went p
      → IsQueue acts (new_runner_event_producer lib table marshal) p
  unfolding new_runner_event_producer
  run-new_runner_event_producer acts p e =
      run-IsQueue acts (new_runner_event_producer lib table marshal) p (omega arith) e
