-- ===== src/Tests/Awaits.antt =====
-- The awaited calls of src/read/mod.rs on a source that is pending twice.
use tario.Prelude.{ℕ, refl, sym, inl, List, [], ◌∷◌, ◌++◌, arith, replicate}
use tario.Archive.Waits.{waits_in}
use mathlib.Core.Path.{subst}
use tario.Io.Poll.{awaits}
use tario.Io.Await.{Agrees, Ended}
use tario.Archive.{Archive}
use tario.State.{State, expecting_header, receiving_data, aligning_data, entry_size}
use tario.Read.Again.{poll_read-poll_read_end}
use tario.Read.Calls.{poll_next_entry, poll_skip_entry, poll_read}
use tario.Read.Futures.{next_entry, skip}
use tario.Read.Entries.{poll_next_entry_header}
use tario.Read.Skip.{poll_skip_entry-Skipped}
use tario.Read.Archived.{end_blocks}
use tario.Read.Pending.Source.{blocking, blocking-Streams}
use tario.Read.Pending.Awaits.{next_entry-poll_next_entry, skip-poll_skip_entry, awaits-poll_read}
use tario.Read.Pending.Whole.{Ends-IsDone}
use tario.Tests.Samples.{tar, header, roomy}
use tario.Tests.Archives.{
  roomy-IsReady, slow_source, slow_left, slow_waits, SlowEven, source-Trickles, header-IsHeader,
}

abbrev slow_in : State → List ℕ → Archive (ℕ × List ℕ)
slow_in s held = record { buf = roomy; state = s; io = (2, held) }

abbrev at_header : Archive (ℕ × List ℕ)
at_header = slow_in expecting_header (header ++ replicate 512 5)

next_entry-poll_next_entry_example :
    Agrees
      (waits_in slow_waits)
      2
      (next_entry tar slow_source 3 at_header)
      (poll_next_entry tar (blocking slow_source slow_waits) at_header)
next_entry-poll_next_entry_example =
    next_entry-poll_next_entry tar slow_source slow_waits source-Trickles.ends 3 at_header
      (omega arith)
      (Ends-IsDone (poll_next_entry tar (blocking slow_source slow_waits) at_header) (
        poll_next_entry_header tar (blocking slow_source slow_waits) slow_left SlowEven
          (blocking-Streams slow_source slow_left SlowEven slow_waits source-Trickles)
          (λ (held : ℕ × List ℕ) (good : SlowEven held). good) at_header header 3 (replicate 512 5)
          roomy-IsReady refl (inl refl) header-IsHeader refl refl))

-- Three bytes, their padding, and the end.
abbrev in_entry : Archive (ℕ × List ℕ)
in_entry = slow_in (receiving_data 3) ((7 ∷ 8 ∷ 9 ∷ []) ++ (replicate 509 0 ++ end_blocks []))

skip-poll_skip_entry_example :
    Agrees
      (waits_in slow_waits)
      2
      (skip tar slow_source 3 header in_entry)
      (poll_skip_entry tar (blocking slow_source slow_waits) header in_entry)
unfolding entry_size
skip-poll_skip_entry_example =
    skip-poll_skip_entry tar slow_source slow_waits source-Trickles.ends 3 header in_entry
      (omega arith)
      (let (b, io, same, after, good, view) =
          poll_skip_entry-Skipped tar (blocking slow_source slow_waits) header slow_left SlowEven
            (blocking-Streams slow_source slow_left SlowEven slow_waits source-Trickles) 3 refl
            (omega arith) (replicate 509 0) (end_blocks []) refl (omega arith) in_entry
            (7 ∷ 8 ∷ 9 ∷ []) roomy-IsReady refl refl (omega arith) (omega arith) refl in
        subst Ended (sym same) tt)

-- Three bytes of padding, and a block.
abbrev in_pad : Archive (ℕ × List ℕ)
in_pad = slow_in (aligning_data 3) (replicate 3 0 ++ replicate 509 1)

awaits-poll_read_example :
    Agrees
      (waits_in slow_waits)
      2
      (awaits 3 (poll_read tar slow_source header 2) in_pad)
      (poll_read tar (blocking slow_source slow_waits) header 2 in_pad)
awaits-poll_read_example =
    awaits-poll_read tar slow_source slow_waits source-Trickles.ends 3 header 2 in_pad (omega arith)
      (let (a, b, same, at_state, view, panics) =
          poll_read-poll_read_end tar (blocking slow_source slow_waits) header 2 (omega arith)
            slow_left SlowEven
            (blocking-Streams slow_source slow_left SlowEven slow_waits source-Trickles) in_pad
            (replicate 3 0) (replicate 509 1) roomy-IsReady refl refl refl (omega arith)
            (omega arith) in
        subst Ended (sym same) tt)
