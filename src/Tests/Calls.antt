-- ===== src/Tests/Calls.antt =====
-- Runs of the reading and writing calls.
use tario.Prelude.{ℕ, ◌≡◌, refl, false, some, List, [], ◌∷◌, arith, length}
use tario.Io.Result.{ok, out_of_range, assertion}
use tario.Io.Poll.{ready, panicked}
use tario.Buffer.{Buf, capacity}
use tario.Buffer.Contents.{IsValid, contents}
use tario.State.{
  receiving_header, receiving_data, take_slices, take_until, next, contains, entry_size,
}
use tario.Read.Consume.{consume, settle, passes_on}
use tario.Read.Calls.{poll_read, poll_next_entry, poll_skip_entry}
use tario.Read.Buffered.{consume_lem}
use tario.Read.Data.{poll_read_data}
use tario.Read.Faults.{poll_next_entry_short, poll_skip_entry_empty}
use tario.Write.Calls.{poll_flush_buffered}
use tario.Write.Flush.{Keeps, poll_flush_buffered-Keeps}
use tario.Tests.Samples.{tar, header, source, sink, sink-Sends, buf-IsValid, in_state}

poll_read_data_example :
    (b : Buf) × (poll_read tar source header 2 (in_state (receiving_data 3)) ≡ (
      ready (1 ∷ 2 ∷ []),
      record (in_state (receiving_data 3)) { buf = b; state = receiving_data 1 },
    ))
    × IsValid b
    × (contents b ≡ 3 ∷ [])
    × (capacity b ≡ 5)
    × (b.pos ≡ b.cap → b.cap ≡ 0)
unfolding entry_size
poll_read_data_example =
    poll_read_data tar source (in_state (receiving_data 3)) header buf-IsValid 3 refl (omega arith)
      (omega arith) 3 2 refl (omega arith) (omega arith)

consume_lem_example :
    (b : Buf) × (consume tar (in_state (receiving_data 3)) 2 (some header)
      ≡ ok (record (in_state (receiving_data 3)) { buf = b; state = receiving_data 1 }))
    × IsValid b
    × (contents b ≡ 3 ∷ [])
    × (length b.bytes ≡ 5)
    × (b.pos ≡ b.cap → b.cap ≡ 0)
unfolding take_slices take_until next contains settle passes_on
consume_lem_example =
    consume_lem tar (in_state (receiving_data 3)) 2 (some header) {t = receiving_data 1}
      {u = receiving_data 1} buf-IsValid (omega arith) refl refl

poll_next_entry_short_example :
    poll_next_entry tar source (in_state (receiving_header 2 false))
    ≡ (panicked out_of_range, in_state (receiving_header 2 false))
poll_next_entry_short_example =
    poll_next_entry_short tar source (in_state (receiving_header 2 false)) buf-IsValid (omega arith)
      2 false refl (omega arith) (omega arith) refl

poll_skip_entry_empty_example :
    poll_skip_entry tar source header (in_state (receiving_data 0))
    ≡ (panicked assertion, in_state (receiving_data 0))
poll_skip_entry_empty_example =
    poll_skip_entry_empty tar source (in_state (receiving_data 0)) buf-IsValid (omega arith) header
      refl

poll_flush_buffered-Keeps_example :
    Keeps
      (λ (w : List ℕ). w)
      (in_state (receiving_data 3))
      (poll_flush_buffered tar sink (in_state (receiving_data 3)))
poll_flush_buffered-Keeps_example =
    poll_flush_buffered-Keeps tar sink (λ (w : List ℕ). w) sink-Sends (in_state (receiving_data 3))
      buf-IsValid
