-- ===== src/Outbox/Delivery.antt =====
-- What a client of the outbox may rely on: the order and the completeness of the output.
use cbr.Prelude.{
  ℕ, zero, suc, ◌≤◌, ◌≡◌, refl, sym, ◌∙◌, ap, arith, Bool, true, false, some, List, [], ◌∷◌, ◌++◌,
  append_assoc, append-nil, subst, Bytes, length, take, leb, leb→le, Bool-cases, inl, inr,
}
use cbr.Outbox.{
  State, waiting, System, initial, wake, wrote, drained, Event, wakes, writes, step, run,
}
use cbr.Outbox.Invariant.{IsValid, IsValid-initial, run-IsValid, bytes_of, in_flight}

reached : (events : List Event) → IsValid (run initial events)
reached events = run-IsValid initial events IsValid-initial

-- Under every interleaving of the session's calls with the writer, the frames that were written in
-- full are the first of the frames that `push` accepted, in the order of acceptance.
pub sent-first_accepted :
    (events : List Event)
    → (rest : List Bytes) × ((run initial events).accepted ≡ (run initial events).sent ++ rest)
sent-first_accepted events =
    let v = reached events in (in_flight (run initial events).writer ++ v.rest, v.accepted_eq)

-- Under every interleaving, the pending count is the number of bytes of
-- the queue, and no more than the recorded maximum.
pub pending-bytes_of :
    (events : List Event)
    → ((run initial events).state.pending ≡ bytes_of (run initial events).state.queue)
      × ((run initial events).state.pending ≤ (run initial events).state.max_pending)
pending-bytes_of events = let v = reached events in (v.pending_eq, v.pending_le)

take-append : (n : ℕ) (xs ys : List Bytes) → n ≤ length xs → take n (xs ++ ys) ≡ take n xs
take-append zero xs ys le = refl
take-append (suc n) [] ys le = absurd (omega arith)
take-append (suc n) (x ∷ xs) ys le = ap (λ l. x ∷ l) (take-append n xs ys (omega arith))

drained-some-true :
    (s : State) (target : ℕ) (late : Bool) → drained s target late ≡ some true → target ≤ s.written
unfolding drained
drained-some-true s target late e = elim (Bool-cases (leb target s.written)) [
  | inl l ↦ leb→le _ _ l
  | inr l ↦ ground arith
]

-- When `wait_drained` answers `true` for a target, the frames that were accepted first, as many as
-- the target, are those that were written in full first.
pub drained-take :
    (events : List Event) (target : ℕ) (late : Bool)
    → drained (run initial events).state target late ≡ some true
    → take target (run initial events).accepted ≡ take target (run initial events).sent
drained-take events target late e =
    let s = run initial events in
    let v = reached events in
    ap (take target) v.accepted_eq
    ∙ take-append target s.sent (in_flight s.writer ++ v.rest)
        (omega (arith, drained-some-true s.state target late e, v.written_le))

-- The writer's rounds: one wake and one write that succeeds for each frame.
abbrev pub rounds : List Bytes → List Event
rounds [] = []
rounds (frame ∷ frames) = wakes ∷ writes true ∷ rounds frames

run-rounds :
    (queue : List Bytes) (pending max_pending queued written : ℕ) (closed failed : Bool)
    (accepted sent : List Bytes)
    → (run
        (record {
          state = record {
            queue = queue;
            pending = pending;
            max_pending = max_pending;
            queued = queued;
            written = written;
            closed = closed;
            failed = failed;
            abandoned = false;
          };
          writer = waiting;
          accepted = accepted;
          sent = sent;
        })
        (rounds queue)).sent
      ≡ sent ++ queue
unfolding run step wake wrote
run-rounds [] pending m queued written closed failed accepted sent = sym (append-nil sent)
run-rounds (x ∷ xs) pending m queued written closed failed accepted sent =
    run-rounds xs _ m queued _ closed failed accepted (sent ++ x ∷ [])
    ∙ append_assoc sent (x ∷ []) xs

sent_all :
    (s : System)
    → s.writer ≡ waiting
    → s.state.abandoned ≡ false
    → (run s (rounds s.state.queue)).sent ≡ s.sent ++ s.state.queue
sent_all s idle live =
    let t = s.state in
    let live_state = record t { abandoned = false } in
    let live_system = record s { writer = waiting; state = live_state } in
    let e : s ≡ live_system = rw (sym idle, sym live) refl in
    subst (λ x. (run x (rounds t.queue)).sent ≡ s.sent ++ t.queue) (sym e)
      (run-rounds t.queue t.pending t.max_pending t.queued t.written t.closed t.failed s.accepted
        s.sent)

-- A writer that is idle and can write empties the outbox: after one round for each frame that is
-- queued, everything that was accepted has been sent, if the connection is not abandoned.
pub rounds-sent_all :
    (events : List Event)
    → (run initial events).writer ≡ waiting
    → (run initial events).state.abandoned ≡ false
    → (run (run initial events) (rounds (run initial events).state.queue)).sent
      ≡ (run initial events).accepted
rounds-sent_all events idle live =
    let s = run initial events in
    let v = reached events in
    sent_all s idle live ∙ ap (λ l. s.sent ++ l) (v.queue_eq live) ∙ sym v.accepted_eq
