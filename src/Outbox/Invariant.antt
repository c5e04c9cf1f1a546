-- ===== src/Outbox/Invariant.antt =====
-- The invariant of the outbox, under every event.
use cbr.Prelude.{
  ℕ, ◌+◌, ◌-◌, ◌≤◌, ◌≡◌, refl, sym, ◌∙◌, ◌⊎◌, ap, arith, Bool, true, false, List, [], ◌∷◌, ◌++◌,
  append_assoc, Bytes, length, length-append, if◌then◌else◌, ◌||◌, Bool-cases, inl, inr, subst,
}
use cbr.Outbox.{
  State, Writer, waiting, writing, returned, System, push, abandon, close, tail, wake, wrote, Event,
  pushes, abandons, closes, wakes, writes, step, run, initial, sent_by,
}

-- The bytes of the frames.
unfoldable pub bytes_of : List Bytes → ℕ
bytes_of [] = 0
bytes_of (frame ∷ frames) = length frame + bytes_of frames

abbrev pub in_flight : Writer → List Bytes
in_flight waiting = []
in_flight (writing frame) = frame ∷ []
in_flight returned = []

-- `rest` are the accepted frames that no write was begun for, or whose write failed.
pub record IsValid (s : System) : Type 0 where
  pub rest : List Bytes
  pub accepted_eq : s.accepted ≡ s.sent ++ (in_flight s.writer ++ rest)
  pub queue_eq : s.state.abandoned ≡ false → s.state.queue ≡ in_flight s.writer ++ rest
  pub pending_eq : s.state.pending ≡ bytes_of s.state.queue
  pub pending_le : s.state.pending ≤ s.state.max_pending
  pub queued_eq : s.state.queued ≡ length s.accepted
  pub written_le : s.state.written ≤ length s.sent

bytes_of-append : (xs ys : List Bytes) → bytes_of (xs ++ ys) ≡ bytes_of xs + bytes_of ys
unfolding bytes_of
bytes_of-append [] ys = omega arith
bytes_of-append (x ∷ xs) ys = omega (arith, bytes_of-append xs ys)

pub IsValid-initial : IsValid initial
unfolding bytes_of
IsValid-initial = record {
  rest = [];
  accepted_eq = refl;
  queue_eq = λ e. refl;
  pending_eq = refl;
  pending_le = omega arith;
  queued_eq = refl;
  written_le = omega arith;
}

push-IsValid : (s : System) (frame : Bytes) → IsValid s → IsValid (step s (pushes frame))
unfolding step push
push-IsValid s frame v = elim (Bool-cases (s.state.failed || s.state.abandoned)) [
  | inl e ↦ rw e v
  | inr e ↦ rw e (record {
    rest = v.rest ++ frame ∷ [];
    accepted_eq = ap (λ l. l ++ frame ∷ []) v.accepted_eq ∙ simp append_assoc;
    queue_eq = λ a.
        ap (λ l. l ++ frame ∷ []) (v.queue_eq a)
        ∙ append_assoc (in_flight s.writer) v.rest (frame ∷ []);
    pending_eq =
        unfold bytes_of in omega (arith, bytes_of-append s.state.queue (frame ∷ []), v.pending_eq);
    pending_le = omega arith;
    queued_eq = omega (arith, length-append s.accepted (frame ∷ []), v.queued_eq);
    written_le = v.written_le;
  })
]

abandon-IsValid : (s : System) → IsValid s → IsValid (step s abandons)
unfolding step abandon bytes_of
abandon-IsValid s v = record {
  rest = v.rest;
  accepted_eq = v.accepted_eq;
  queue_eq = λ a. cc;
  pending_eq = refl;
  pending_le = omega arith;
  queued_eq = v.queued_eq;
  written_le = v.written_le;
}

close-IsValid : (s : System) → IsValid s → IsValid (step s closes)
unfolding step close
close-IsValid s v = record {
  rest = v.rest;
  accepted_eq = v.accepted_eq;
  queue_eq = v.queue_eq;
  pending_eq = v.pending_eq;
  pending_le = v.pending_le;
  queued_eq = v.queued_eq;
  written_le = v.written_le;
}

Writer-cases :
    (w : Writer) → (w ≡ waiting) ⊎ (((frame : Bytes) × (w ≡ writing frame)) ⊎ (w ≡ returned))
Writer-cases waiting = inl refl
Writer-cases (writing frame) = inr (inl (frame, refl))
Writer-cases returned = inr (inr refl)

List-cases : (l : List Bytes) → (l ≡ []) ⊎ ((x : Bytes) × (xs : List Bytes) × (l ≡ x ∷ xs))
List-cases [] = inl refl
List-cases (x ∷ xs) = inr (x, xs, refl)

-- A writer with nothing in flight may return, or begin the frame in front.
idle-IsValid :
    (s : System) (w : Writer) (rest : List Bytes) (v : IsValid s)
    → in_flight s.writer ≡ []
    → v.rest ≡ in_flight w ++ rest
    → IsValid (record s { writer = w })
idle-IsValid s w rest v idle e = record {
  rest = rest;
  accepted_eq = v.accepted_eq ∙ rw (idle, e) refl;
  queue_eq = λ a. v.queue_eq a ∙ rw (idle, e) refl;
  pending_eq = v.pending_eq;
  pending_le = v.pending_le;
  queued_eq = v.queued_eq;
  written_le = v.written_le;
}

wake-abandoned : (s : State) → s.abandoned ≡ true → wake s ≡ returned
unfolding wake
wake-abandoned s a = simp a

wake-busy :
    (s : State) (x : Bytes) (xs : List Bytes)
    → s.abandoned ≡ false
    → s.queue ≡ x ∷ xs
    → wake s ≡ writing x
unfolding wake
wake-busy s x xs a q = simp (a, q)

wake-idle :
    (s : State)
    → s.abandoned ≡ false
    → s.queue ≡ []
    → wake s ≡ (if s.closed then returned else waiting)
unfolding wake
wake-idle s a q = simp (a, q)

woken_as :
    (s : System) (w : Writer)
    → wake s.state ≡ w
    → IsValid (record s { writer = w })
    → IsValid (record s { writer = wake s.state })
woken_as s w e = subst (λ x. IsValid (record s { writer = x })) (sym e)

woken-IsValid :
    (s : System)
    → IsValid s
    → in_flight s.writer ≡ []
    → IsValid (record s { writer = wake s.state })
woken-IsValid s v idle = elim (Bool-cases s.state.abandoned) [
  | inl a ↦
      woken_as s returned (wake-abandoned s.state a) (idle-IsValid s returned v.rest v idle refl)
  | inr a ↦ elim (List-cases s.state.queue) [
    | inr (x, xs, q) ↦
        woken_as s (writing x) (wake-busy s.state x xs a q)
          (idle-IsValid s (writing x) xs v idle (rw idle at (sym (v.queue_eq a)) ∙ q))
    | inl q ↦ elim (Bool-cases s.state.closed) [
      | inl c ↦
          woken_as s returned (wake-idle s.state a q ∙ simp c)
            (idle-IsValid s returned v.rest v idle refl)
      | inr c ↦
          woken_as s waiting (wake-idle s.state a q ∙ simp c)
            (idle-IsValid s waiting v.rest v idle refl)
    ]
  ]
]

wake-IsValid : (s : System) → IsValid s → IsValid (step s wakes)
unfolding step
wake-IsValid s v = elim (Writer-cases s.writer) [
  | inr (inl (frame, e)) ↦ rw (e, step) v
  | inr (inr e) ↦ rw (e, step) v
  | inl e ↦ rw (e, step) (woken-IsValid s v (rw e))
]

-- A write that failed leaves its frame undelivered; one that was made delivers it, and is counted
-- unless the connection was abandoned meanwhile.
module _ (s : System) (frame : Bytes) (v : IsValid s) (flying : s.writer ≡ writing frame) where
  accepted_flying : s.accepted ≡ s.sent ++ (frame ∷ v.rest)
  accepted_flying = rw flying at v.accepted_eq

  queue_flying : s.state.abandoned ≡ false → s.state.queue ≡ frame ∷ v.rest
  queue_flying a = rw flying at (v.queue_eq a)

  abandoned-IsValid :
      s.state.abandoned ≡ true
      → (done : Bool) → IsValid (record s { writer = returned; sent = sent_by done s.sent frame })
  abandoned-IsValid a false = record {
    rest = frame ∷ v.rest;
    accepted_eq = accepted_flying;
    queue_eq = λ b. cc;
    pending_eq = v.pending_eq;
    pending_le = v.pending_le;
    queued_eq = v.queued_eq;
    written_le = v.written_le;
  }
  abandoned-IsValid a true = record {
    rest = v.rest;
    accepted_eq = accepted_flying ∙ sym (append_assoc s.sent (frame ∷ []) v.rest);
    queue_eq = λ b. cc;
    pending_eq = v.pending_eq;
    pending_le = v.pending_le;
    queued_eq = v.queued_eq;
    written_le = omega (arith, length-append s.sent (frame ∷ []), v.written_le);
  }

  failed-IsValid :
      IsValid (record s { state = record (s.state) { failed = true }; writer = returned })
  failed-IsValid = record {
    rest = frame ∷ v.rest;
    accepted_eq = accepted_flying;
    queue_eq = λ b. queue_flying b;
    pending_eq = v.pending_eq;
    pending_le = v.pending_le;
    queued_eq = v.queued_eq;
    written_le = v.written_le;
  }

  written-IsValid :
      s.state.abandoned ≡ false
      → IsValid (record s {
        state = record (s.state) {
          queue = tail s.state.queue;
          pending = s.state.pending - length frame;
          written = s.state.written + 1;
        };
        writer = waiting;
        sent = s.sent ++ frame ∷ [];
      })
  written-IsValid a =
      let q = queue_flying a in
      let p : s.state.pending ≡ length frame + bytes_of v.rest =
        v.pending_eq ∙ (unfold bytes_of in ap bytes_of q) in
      record {
        rest = v.rest;
        accepted_eq = accepted_flying ∙ sym (append_assoc s.sent (frame ∷ []) v.rest);
        queue_eq = λ b. ap tail q;
        pending_eq = rw q (omega arith);
        pending_le = omega (arith, v.pending_le);
        queued_eq = v.queued_eq;
        written_le = omega (arith, length-append s.sent (frame ∷ []), v.written_le);
      }

unfoldable settled : System → State × Writer → List Bytes → System
settled s (state, writer) sent = record s { state = state; writer = writer; sent = sent }

wrote-abandoned :
    (s : State) (frame : Bytes) (done : Bool)
    → s.abandoned ≡ true
    → wrote s frame done ≡ (s, returned)
unfolding wrote
wrote-abandoned s frame done a = simp a

wrote-failed :
    (s : State) (frame : Bytes)
    → s.abandoned ≡ false
    → wrote s frame false ≡ (record s { failed = true }, returned)
unfolding wrote
wrote-failed s frame a = simp a

wrote-done :
    (s : State) (frame : Bytes)
    → s.abandoned ≡ false
    → wrote s frame true ≡ (
      record s {
        queue = tail s.queue;
        pending = s.pending - length frame;
        written = s.written + 1;
      },
      waiting,
    )
unfolding wrote
wrote-done s frame a = simp a

settled-IsValid :
    (s : System) (frame : Bytes) (done : Bool)
    → IsValid s
    → s.writer ≡ writing frame
    → IsValid (settled s (wrote s.state frame done) (sent_by done s.sent frame))
unfolding settled
settled-IsValid s frame done v e = elim (Bool-cases s.state.abandoned) [
  | inl a ↦ simp (wrote-abandoned s.state frame done a) (abandoned-IsValid s frame v e a done)
  | inr a ↦ elim (Bool-cases done) [
    | inl d ↦ rw d (simp (wrote-done s.state frame a) (written-IsValid s frame v e a))
    | inr d ↦ rw d (simp (wrote-failed s.state frame a) (failed-IsValid s frame v e))
  ]
]

wrote-IsValid : (s : System) (done : Bool) → IsValid s → IsValid (step s (writes done))
unfolding step settled
wrote-IsValid s done v = elim (Writer-cases s.writer) [
  | inl e ↦ rw (e, step) v
  | inr (inr e) ↦ rw (e, step) v
  | inr (inl (frame, e)) ↦ rw (e, step) (settled-IsValid s frame done v e)
]

pub step-IsValid : (s : System) (event : Event) → IsValid s → IsValid (step s event)
step-IsValid s (pushes frame) v = push-IsValid s frame v
step-IsValid s abandons v = abandon-IsValid s v
step-IsValid s closes v = close-IsValid s v
step-IsValid s wakes v = wake-IsValid s v
step-IsValid s (writes done) v = wrote-IsValid s done v

-- Every interleaving keeps the invariant.
pub run-IsValid : (s : System) (events : List Event) → IsValid s → IsValid (run s events)
unfolding run
run-IsValid s [] v = v
run-IsValid s (event ∷ events) v = run-IsValid (step s event) events (step-IsValid s event v)
