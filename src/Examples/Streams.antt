-- ===== src/Examples/Streams.antt =====
-- Runs of the frame reader and of the outbox.
use cbr.Prelude.{◌≡◌, ◌≤◌, refl, true, false, some, List, [], ◌∷◌, ◌++◌, Bytes, codes, take, arith}
use cbr.Frames.{FrameReader, got, opened, next_frame}
use cbr.Frames.Cut.{first_frame}
use cbr.Frames.Scan.{IsReady, stream_of}
use cbr.Frames.Lines.{next_frame-first_frame, next_frame-rest}
use cbr.Outbox.{initial, Event, pushes, wakes, writes, run, drained, waiting, wake, push, wrote}
use cbr.Outbox.Invariant.{bytes_of}
use cbr.Outbox.Delivery.{
  sent-first_accepted, pending-bytes_of, drained-take, rounds, rounds-sent_all,
}

-- Two lines, divided among three reads.
abbrev lines_reader : FrameReader
lines_reader = opened (got (codes "[1") ∷ got (codes "]\n") ∷ got (codes "{}\n") ∷ [])

lines_reader-IsReady : IsReady 8 lines_reader
lines_reader-IsReady = record {
  flowing = tt;
  open_eq = refl;
  partial_cut = refl;
  partial_le = omega arith;
  at_le = omega arith;
}

next_frame-first_frame_example :
    (next_frame lines_reader 8).0 ≡ some (first_frame 8 (stream_of lines_reader))
next_frame-first_frame_example = next_frame-first_frame 8 lines_reader lines_reader-IsReady

next_frame-rest_example :
    (stream_of (next_frame lines_reader 8).1 ≡ codes "{}\n")
    × IsReady 8 (next_frame lines_reader 8).1
next_frame-rest_example =
    next_frame-rest 8 lines_reader (codes "[1]") (codes "{}\n") lines_reader-IsReady refl
      (omega arith)

-- Two frames are accepted, the first is written, and the second waits.
abbrev some_events : List Event
some_events = pushes (codes "ab") ∷ wakes ∷ pushes (codes "c") ∷ writes true ∷ []

sent-first_accepted_example :
    (rest : List Bytes) × ((run initial some_events).accepted
      ≡ (run initial some_events).sent ++ rest)
sent-first_accepted_example = sent-first_accepted some_events

pending-bytes_of_example :
    ((run initial some_events).state.pending ≡ bytes_of (run initial some_events).state.queue)
    × ((run initial some_events).state.pending ≤ (run initial some_events).state.max_pending)
pending-bytes_of_example = pending-bytes_of some_events

drained_one : drained (run initial some_events).state 1 false ≡ some true
unfolding drained run wake push wrote
drained_one = refl

drained-take_example :
    take 1 (run initial some_events).accepted ≡ take 1 (run initial some_events).sent
drained-take_example = drained-take some_events 1 false drained_one

writer_waits : (run initial some_events).writer ≡ waiting
unfolding run wake push wrote
writer_waits = refl

not_abandoned : (run initial some_events).state.abandoned ≡ false
unfolding run wake push wrote
not_abandoned = refl

rounds-sent_all_example :
    (run (run initial some_events) (rounds (run initial some_events).state.queue)).sent
    ≡ (run initial some_events).accepted
rounds-sent_all_example = rounds-sent_all some_events writer_waits not_abandoned
