-- ===== src/Tests/Sinks.antt =====
-- The awaited calls of src/write/mod.rs on a sink that is pending twice.
use tario.Prelude.{
  ℕ, zero, suc, min, ◌≡◌, refl, sym, inl, true, false, List, [], ◌++◌, arith, length, take,
  replicate, length-replicate,
}
use mathlib.Core.Path.{subst}
use tario.Io.Poll.{Poll, Call, ready, pending, ◌>>◌, attempt, awaits}
use tario.Io.Await.{Agrees, Ended}
use tario.Io.Waited.{Awaited}
use tario.Buffer.{Buf}
use tario.Buffer.Contents.{IsValid}
use tario.State.{expecting_header}
use tario.Archive.{Archive, new_entry}
use tario.Archive.Waits.{waits_in}
use tario.Write.Calls.{AsyncWrite}
use tario.Write.Entries.{poll_write_header, add_entry, poll_finish, finish}
use tario.Write.Ready.{IsReadySink}
use tario.Write.Steps.{poll_write_header_ready}
use tario.Write.Ends.{finish_loop_ready}
use tario.Write.Pending.Sink.{IsPatient, blocking_sink}
use tario.Write.Pending.Awaits.{add_entry-poll_write_header, finish-poll_finish}
use tario.Tests.Samples.{tar, header}
use tario.Tests.Archives.{header-IsHeader}

abbrev sends_two : List ℕ → List ℕ → Poll ℕ × (ℕ × List ℕ)
sends_two bytes w = (ready (min 2 (length bytes)), (0, w ++ take (min 2 (length bytes)) bytes))

-- How often the sink is pending before it takes two bytes.
abbrev slow_write : List ℕ → Call (ℕ × List ℕ) ℕ
slow_write bytes (zero, w) = sends_two bytes w
slow_write bytes (suc n, w) = (pending, (n, w))

abbrev slow_end : Call (ℕ × List ℕ) (Unit {0})
slow_end (zero, w) = (ready tt, (0, w))
slow_end (suc n, w) = (pending, (n, w))

abbrev slow_sink : AsyncWrite (ℕ × List ℕ)
slow_sink = record {
  poll_write = slow_write;
  poll_write_vectored = λ slices w. (ready 0, w);
  is_write_vectored = λ w. false;
  poll_flush = slow_end;
  poll_shutdown = slow_end;
}

abbrev sink_waits : ℕ × List ℕ → ℕ
sink_waits w = w.0

abbrev sink_sent : ℕ × List ℕ → List ℕ
sink_sent w = w.1

slow_write-Awaited :
    (bytes : List ℕ) (w : ℕ × List ℕ) → Awaited sink_waits (sink_waits w) (slow_write bytes w)
slow_write-Awaited bytes (zero, w) = omega arith
slow_write-Awaited bytes (suc n, w) = omega arith

slow_end-Awaited : (w : ℕ × List ℕ) → Awaited sink_waits (sink_waits w) (slow_end w)
slow_end-Awaited (zero, w) = omega arith
slow_end-Awaited (suc n, w) = omega arith

slow_sink-IsPatient : IsPatient slow_sink sink_waits
slow_sink-IsPatient = record {
  writes = slow_write-Awaited;
  flushes = slow_end-Awaited;
  shuts = slow_end-Awaited;
  narrow = λ w. refl;
}

waited_write :
    (bytes : List ℕ) (n : ℕ) (w : List ℕ)
    → awaits (suc n) (slow_write bytes) (n, w) ≡ sends_two bytes w
unfolding awaits
waited_write bytes zero w = refl
waited_write bytes (suc n) w = waited_write bytes n w

waited_end : (n : ℕ) (w : List ℕ) → awaits (suc n) slow_end (n, w) ≡ (ready tt, (0, w))
unfolding awaits
waited_end zero w = refl
waited_end (suc n) w = waited_end n w

abbrev waiting : AsyncWrite (ℕ × List ℕ)
waiting = blocking_sink slow_sink sink_waits

waiting-IsReadySink : IsReadySink waiting sink_sent
waiting-IsReadySink = record {
  takes = λ bytes w some_bytes. (
    min 2 (length bytes),
    (0, w.1 ++ take (min 2 (length bytes)) bytes),
    waited_write bytes w.0 w.1,
    omega arith,
    omega arith,
    refl,
  );
  narrow_or_whole = inl (λ w. refl);
  shuts = λ w. ((0, w.1), waited_end w.0 w.1, refl);
}

-- A buffer with a byte to send, and no room for a block behind it.
abbrev full : Buf
full = record { bytes = replicate 1024 0; cap = 1000; pos = 999 }

full-IsValid : IsValid full
full-IsValid = record {
  ordered = omega arith;
  inside = omega (arith, length-replicate {A = ℕ} 1024 0);
  allocated = omega (arith, length-replicate {A = ℕ} 1024 0);
}

abbrev before_header : Archive (ℕ × List ℕ)
before_header = record { buf = full; state = expecting_header; io = (2, []) }

add_entry-poll_write_header_example :
    Agrees
      (waits_in sink_waits)
      2
      (add_entry tar slow_sink true 3 header before_header)
      ((poll_write_header tar waiting true header >> attempt (new_entry tar header)) before_header)
add_entry-poll_write_header_example =
    add_entry-poll_write_header tar slow_sink true sink_waits slow_sink-IsPatient 3 header
      before_header (omega arith)
      (let (b, w, same, valid, sized, order) =
          poll_write_header_ready tar waiting true sink_sent waiting-IsReadySink before_header
            header 3 full-IsValid (omega (arith, length-replicate {A = ℕ} 1024 0)) refl
            header-IsHeader.whole header-IsHeader.not_empty header-IsHeader.sized in
        subst Ended (sym same) tt)

finish-poll_finish_example :
    Agrees
      (waits_in sink_waits)
      2
      (finish tar slow_sink true 3 3 before_header)
      (poll_finish tar waiting true 3 before_header)
finish-poll_finish_example =
    finish-poll_finish tar slow_sink true sink_waits slow_sink-IsPatient 3 3 before_header
      (omega arith)
      (let (b, w, same, valid, empty, order) =
          finish_loop_ready tar waiting true 1 (omega arith) sink_sent waiting-IsReadySink
            before_header full-IsValid (omega (arith, length-replicate {A = ℕ} 1024 0)) refl in
        subst Ended (sym same) tt)
