-- ===== src/Tests/Writes.antt =====
-- Runs of the writing calls on a buffer with room.
use tario.Prelude.{ℕ, ◌≡◌, refl, true, some, [], ◌∷◌, ◌++◌, arith, replicate, length-replicate}
use tario.Io.Poll.{ready, ◌>>◌}
use tario.Block.{empty_block}
use tario.Buffer.{Buf, capacity}
use tario.Buffer.Contents.{IsValid, contents}
use tario.State.{
  expecting_header, receiving_data, received_data, received_eof, take_until, next, contains,
  entry_size,
}
use tario.State.Layout.{padding}
use tario.Write.Calls.{poll_write_vectored, poll_flush_buffered, poll_finish_entry, on_io}
use tario.Write.Entries.{poll_finish}
use tario.Write.Buffered.{poll_write_vectored_buffered}
use tario.Write.Finish.{poll_finish_entry_pads}
use tario.Write.Blocks.{poll_finish_blocks}
use tario.Tests.Samples.{tar, header, sink, roomy, roomy-IsValid, writes_in}

poll_write_vectored_buffered_example :
    (b : Buf) × (poll_write_vectored tar sink
        ((1 ∷ []) ∷ (2 ∷ 3 ∷ []) ∷ [])
        2
        (some header)
        (writes_in (receiving_data 3))
      ≡ (ready 2, record (writes_in (receiving_data 3)) { buf = b; state = receiving_data 1 }))
    × IsValid b
    × (contents b ≡ contents roomy ++ 1 ∷ 2 ∷ [])
    × (capacity b ≡ capacity roomy)
    × (b.pos ≡ 0)
unfolding take_until next contains
poll_write_vectored_buffered_example =
    poll_write_vectored_buffered tar sink (writes_in (receiving_data 3)) roomy-IsValid
      ((1 ∷ []) ∷ (2 ∷ 3 ∷ []) ∷ []) 2 (some header)
      (omega (arith, length-replicate {A = ℕ} 1024 0)) refl refl

poll_finish_entry_pads_example :
    (b : Buf) × (poll_finish_entry tar sink header (writes_in received_data)
      ≡ (ready tt, record (writes_in received_data) { buf = b; state = expecting_header }))
    × IsValid b
    × (contents b ≡ contents roomy ++ replicate (padding 3) 0)
    × (capacity b ≡ capacity roomy)
unfolding entry_size
poll_finish_entry_pads_example =
    poll_finish_entry_pads tar sink (writes_in received_data) header 3 roomy-IsValid refl refl
      (omega arith) (omega (arith, length-replicate {A = ℕ} 1024 0)) refl

poll_finish_blocks_example :
    (c : Buf) × (poll_finish tar sink true 3 (writes_in expecting_header)
      ≡ (poll_flush_buffered tar sink >> on_io tar sink sink.poll_shutdown)
          (record (writes_in expecting_header) { buf = c; state = received_eof }))
    × IsValid c
    × (contents c ≡ contents roomy ++ (empty_block ++ empty_block))
poll_finish_blocks_example =
    poll_finish_blocks tar sink true (writes_in expecting_header) 0 roomy-IsValid refl
      (omega (arith, length-replicate {A = ℕ} 1024 0)) refl
