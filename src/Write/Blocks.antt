-- ===== src/Write/Blocks.antt =====
-- `Archive::poll_write_header` and `Archive::poll_finish` of src/write/mod.rs where the blocks that
-- they write fit into the buffer.
use tario.Prelude.{
  append_assoc, [], append-nil, sym, length-append, ◌*◌, all_zero-replicate, length-replicate, true,
  none, List, ℕ, suc, ◌-◌, ◌≤◌, ◌<◌, ◌≡◌, refl, ap, ◌∙◌, Bool, false, some, ◌++◌, arith, ◌==◌,
  length, all_zero,
}
use tario.Io.Result.{slice_to, ok}
use tario.Io.Poll.{ready, pass_of, ◌>>◌}
use tario.Block.{empty_block, Header, Tar, block_size}
use tario.Buffer.{Buf, capacity}
use tario.Buffer.Contents.{length-contents, IsValid, contents}
use tario.State.{
  received_eof, receiving_eof, State, expecting_header, received_header, receiving_data, next,
  take_until, stops, entry_size, take_marker, is_marker,
}
use tario.State.Layout.{scan_eof, scan_only_block}
use tario.Archive.{Archive}
use tario.Write.Calls.{on_io, poll_flush_buffered, AsyncWrite, can_pass_through, poll_write_data}
use tario.Write.Entries.{
  on_finish, poll_finish, on_write_header, write_header_loop, poll_write_header,
}
use tario.Write.Buffered.{poll_write_data_buffered}
use tario.Write.Finish.{cut_block, takes_marker_lem}

pub zero_block : (length empty_block ≡ block_size) × (all_zero empty_block ≡ true)
unfolding empty_block
zero_block = (length-replicate {A = ℕ} block_size 0, all_zero-replicate block_size)

pub whole_block : slice_to empty_block block_size ≡ ok empty_block
unfolding empty_block
whole_block = cut_block block_size (omega arith)

module _ {W : Type 0} (tar : Tar) (sink : AsyncWrite W) (debug : Bool) where
  header_round :
      (h : Header) (fuel : ℕ) (a : Archive W) {s : State}
      → a.state ≡ s
      → write_header_loop tar sink debug (suc fuel) h a
        ≡ on_write_header tar sink debug h (write_header_loop tar sink debug fuel h) s a
  unfolding write_header_loop
  header_round h fuel a e =
      ap
        (λ (t : State).
          on_write_header tar sink debug h (write_header_loop tar sink debug fuel h) t a)
        e

  -- The two rounds, by what each call does.
  pub header_parts :
      (h : Header) (fuel n size : ℕ) (a : Archive W) (b : Buf) (w : W)
      → a.state ≡ expecting_header
      → 0 < n
      → poll_write_data tar sink h (some h) a
        ≡ (ready n, record { buf = b; state = received_header; io = w })
      → take_marker tar received_header (some h) ≡ ok (receiving_data size)
      → write_header_loop tar sink debug (suc (suc fuel)) h a
        ≡ (ready tt, record { buf = b; state = receiving_data size; io = w })
  unfolding on_write_header
  header_parts h fuel n size a b w s some_bytes written marked =
      let test : (n == 0) ≡ false = ground arith in
      let after : Archive W = record { buf = b; state = received_header; io = w } in
      header_round h (suc fuel) a s
      ∙ (rw (written, test)
          (header_round h fuel after refl ∙ takes_marker_lem tar sink after (some h) marked))

  -- In the state that expects a header, a header block of 512 bytes, not all zero, that states a size,
  -- fits into the free part of a valid buffer and is not passed through: `poll_write_header` appends
  -- just its bytes to the contents, and the archive then receives as many bytes of data as stated.
  pub poll_write_header_buffered :
      (a : Archive W) (h : Header) (size : ℕ)
      → IsValid a.buf
      → a.state ≡ expecting_header
      → length h ≡ block_size
      → all_zero h ≡ false
      → entry_size tar (some h) ≡ ok size
      → block_size ≤ capacity a.buf - a.buf.cap
      → can_pass_through tar sink block_size a ≡ false
      → (b : Buf) × (poll_write_header tar sink debug h a
          ≡ (ready tt, record a { buf = b; state = receiving_data size }))
        × IsValid b
        × (contents b ≡ contents a.buf ++ h)
        × (capacity b ≡ capacity a.buf)
  unfolding poll_write_header take_marker is_marker next
  poll_write_header_buffered a h size v s whole filled sized fits through =
      let leads : take_until tar a.state stops h (some h) ≡ ok (received_header, length h) =
        rw s (scan_only_block tar (some h) h whole ∙ rw filled) in
      let marked : take_marker tar received_header (some h) ≡ ok (receiving_data size) =
        rw (sized) in
      let (b, written, valid, held, same, unmoved) =
        poll_write_data_buffered tar sink a v h (some h) (rw whole fits) (rw whole through) leads in
      (
        b,
        header_parts h 1022 (length h) size a b a.io s (omega arith) written marked,
        valid,
        held,
        same,
      )

  finish_round :
      (fuel : ℕ) (a : Archive W) {s : State}
      → a.state ≡ s
      → poll_finish tar sink debug (suc fuel) a
        ≡ on_finish tar sink debug (poll_finish tar sink debug fuel) s a
  unfolding poll_finish
  finish_round fuel a e =
      ap (λ (t : State). on_finish tar sink debug (poll_finish tar sink debug fuel) t a) e

  -- The three rounds, by what the two writes do.
  pub finish_parts :
      (fuel m n : ℕ) (a : Archive W) (b c : Buf) (w w' : W) (blk : List ℕ)
      → a.state ≡ expecting_header
      → poll_write_data tar sink empty_block none a
        ≡ (ready m, record { buf = b; state = receiving_eof block_size; io = w })
      → slice_to empty_block block_size ≡ ok blk
      → poll_write_data tar sink blk none
          (record { buf = b; state = receiving_eof block_size; io = w })
        ≡ (ready n, record { buf = c; state = received_eof; io = w' })
      → poll_finish tar sink debug (suc (suc (suc fuel))) a
        ≡ (poll_flush_buffered tar sink >> on_io tar sink sink.poll_shutdown)
            (record { buf = c; state = received_eof; io = w' })
  unfolding on_finish
  finish_parts fuel m n a b c w w' blk s first cut second =
      finish_round (suc (suc fuel)) a s
      ∙ (pass_of (λ _. poll_finish tar sink debug (suc (suc fuel))) first
          ∙ (finish_round (suc fuel) (record { buf = b; state = receiving_eof block_size; io = w })
                refl
              ∙ (rw cut (pass_of (λ _. poll_finish tar sink debug (suc fuel)) second)
                  ∙ finish_round fuel (record { buf = c; state = received_eof; io = w' }) refl)))

  -- In the state that expects a header, where two blocks fit into the free part of a valid buffer and a
  -- block is not passed through: `poll_finish` appends just two empty blocks to the contents, and is
  -- then the flush of the buffer and the shutdown of the sink. Three rounds of its loop are enough.
  pub poll_finish_blocks :
      (a : Archive W) (fuel : ℕ)
      → IsValid a.buf
      → a.state ≡ expecting_header
      → 2 * block_size ≤ capacity a.buf - a.buf.cap
      → can_pass_through tar sink block_size a ≡ false
      → (c : Buf) × (poll_finish tar sink debug (suc (suc (suc fuel))) a
          ≡ (poll_flush_buffered tar sink >> on_io tar sink sink.poll_shutdown)
              (record a { buf = c; state = received_eof }))
        × IsValid c
        × (contents c ≡ contents a.buf ++ (empty_block ++ empty_block))
  poll_finish_blocks a fuel v s fits through =
      let (len, zero) = zero_block in
      let first : take_until tar a.state stops empty_block none
          ≡ ok (receiving_eof block_size, length empty_block) =
        rw s (scan_only_block tar none empty_block len ∙ rw zero) in
      let (b, written, valid, held, same, unmoved) =
        poll_write_data_buffered tar sink a v empty_block none (omega arith) (rw len through)
          first in
      let size = length-contents v in
      let size' = length-contents valid in
      let both = ap length held ∙ length-append (contents a.buf) empty_block in
      let second : take_until tar (receiving_eof block_size) stops empty_block none
          ≡ ok (received_eof, length empty_block) =
        ap (λ (xs : List ℕ). take_until tar (receiving_eof block_size) stops xs none)
          (sym (append-nil empty_block))
        ∙ (scan_eof tar none empty_block [] len ∙ rw (zero, len)) in
      let ordered = v.ordered in
      let ordered' = valid.ordered in
      let (c, written', valid', held', same', unmoved') =
        poll_write_data_buffered tar sink (record a { buf = b; state = receiving_eof block_size })
          valid empty_block none (omega arith) (rw (len, same) through) second in
      (
        c,
        finish_parts fuel (length empty_block) (length empty_block) a b c a.io a.io empty_block s
            written whole_block written',
        valid',
        held'
            ∙ (ap (λ (xs : List ℕ). xs ++ empty_block) held
                ∙ append_assoc (contents a.buf) empty_block empty_block),
      )
