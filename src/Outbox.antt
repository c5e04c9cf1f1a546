-- ===== src/Outbox.antt =====
-- crates/cbr-provider/src/outbox.rs: the pending output of one connection. The state under the
-- mutex, the writer thread between two locks, and what the consumer has received; an event is one
-- critical section, and a list of events is an interleaving of the session and the writer.
pub mod Invariant
pub mod Delivery
use cbr.Prelude.{
  ℕ, suc, ◌+◌, ◌-◌, Bool, true, false, ◌&&◌, ◌||◌, not, Option, none, some, List, [], ◌∷◌, ◌++◌,
  Bytes, length, max, leb, if◌then◌else◌,
}

pub record State : Type 0 where
  pub queue : List Bytes
  pub pending : ℕ
  pub max_pending : ℕ
  pub queued : ℕ
  pub written : ℕ
  pub closed : Bool
  pub failed : Bool
  pub abandoned : Bool

-- The writer waits for work, writes a frame with the mutex released, or has returned.
pub data Writer : Type 0 where
  waiting : Writer
  writing : Bytes → Writer
  returned : Writer

-- `accepted` and `sent` are not of the program: the frames that `push` took, and those that were
-- written in full.
pub record System : Type 0 where
  pub state : State
  pub writer : Writer
  pub accepted : List Bytes
  pub sent : List Bytes

abbrev pub initial : System
initial = record {
  state = record {
    queue = [];
    pending = 0;
    max_pending = 0;
    queued = 0;
    written = 0;
    closed = false;
    failed = false;
    abandoned = false;
  };
  writer = waiting;
  accepted = [];
  sent = [];
}

unfoldable pub push : State → Bytes → State × Bool
push s frame = if s.failed || s.abandoned then (s, false) else (
  record s {
    pending = s.pending + length frame;
    max_pending = max s.max_pending (s.pending + length frame);
    queued = s.queued + 1;
    queue = s.queue ++ frame ∷ [];
  },
  true,
)

unfoldable pub abandon : State → State
abandon s = record s { abandoned = true; closed = true; queue = []; pending = 0 }

-- The end of `close`, when its wait is over.
unfoldable pub close : State → State
close s = record s { closed = true }

abbrev pub tail {ℓ} : {A : Type ℓ} → List A → List A
tail [] = []
tail (x ∷ xs) = xs

-- The writer wakes: it waits on while there is nothing to do.
unfoldable pub wake : State → Writer
wake s =
    if s.abandoned
    then returned
    else elim s.queue [ [] ↦ if s.closed then returned else waiting | frame ∷ more ↦ writing frame ]

-- The writer has the mutex again after `write_all` and `flush`.
unfoldable pub wrote : State → Bytes → Bool → State × Writer
wrote s frame done =
    if s.abandoned
    then (s, returned)
    else if not done
    then (record s { failed = true }, returned)
    else (
      record s {
        queue = tail s.queue;
        pending = s.pending - length frame;
        written = s.written + 1;
      },
      waiting,
    )

-- What `wait_drained` answers for the count that it waits for; `none` is a further wait, until
-- the deadline.
unfoldable pub drained : State → ℕ → Bool → Option Bool
drained s target late =
    if leb target s.written
    then some true
    else if s.failed || s.abandoned
    then some false
    else if late
    then some false
    else none

pub data Event : Type 0 where
  pushes : Bytes → Event
  abandons closes wakes : Event
  writes : Bool → Event

abbrev pub sent_by : Bool → List Bytes → Bytes → List Bytes
sent_by true sent frame = sent ++ frame ∷ []
sent_by false sent frame = sent

abbrev accepted_by : Bool → List Bytes → Bytes → List Bytes
accepted_by true accepted frame = accepted ++ frame ∷ []
accepted_by false accepted frame = accepted

-- One critical section. An event for which the writer is not where it takes it changes nothing.
unfoldable pub step : System → Event → System
step s (pushes frame) =
    let (state, taken) = push s.state frame in
    record s { state = state; accepted = accepted_by taken s.accepted frame }
step s abandons = record s { state = abandon s.state }
step s closes = record s { state = close s.state }
step s wakes = elim s.writer [
  | waiting ↦ record s { writer = wake s.state }
  | writing frame ↦ s
  | returned ↦ s
]
step s (writes done) = elim s.writer [
  | waiting ↦ s
  | returned ↦ s
  | writing frame ↦
      let (state, writer) = wrote s.state frame done in
      record s { state = state; writer = writer; sent = sent_by done s.sent frame }
]

unfoldable pub run : System → List Event → System
unfolding step
run s [] = s
run s (event ∷ events) = run (step s event) events
