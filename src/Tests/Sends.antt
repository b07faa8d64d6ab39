-- ===== src/Tests/Sends.antt =====
-- Runs of the writing calls against sinks that take a few bytes at a time.
use tario.Prelude.{
  ℕ, min, ◌≡◌, refl, true, some, List, [], ◌∷◌, ◌++◌, arith, length, take, replicate, concat,
}
use tario.Io.Poll.{ready}
use tario.State.{take_slices, receiving_data, take_until, next, contains}
use tario.Slices.{
  Slice, slices_take_prefix, slices_split_at_byte_offset, bytes_len, prefix_take_prefix,
  prefix_split_at_byte_offset,
}
use tario.Io.Poll.{panicked}
use tario.Io.Result.{invalid_state}
use tario.Block.{Header}
use tario.Buffer.{Buf, buffered, region_is_empty}
use tario.Write.Entries.{poll_write_header, write_header_loop, on_write_header}
use tario.State.{expecting_header}
use tario.Write.Calls.{flush_loop, AsyncWrite, poll_write_vectored}
use tario.Write.Vectored.{Writes, poll_write_vectored-Writes}
use tario.Tests.Samples.{tar, header, buf-IsValid, in_state}

-- A sink that takes several slices at once, four bytes at a time.
abbrev wide_sink : AsyncWrite (List ℕ)
wide_sink = record {
  poll_write = λ bytes w. (ready (min 4 (length bytes)), w ++ take (min 4 (length bytes)) bytes);
  poll_write_vectored = λ slices w. (
    ready (min 4 (length (concat slices))),
    w ++ take (min 4 (length (concat slices))) (concat slices),
  );
  is_write_vectored = λ w. true;
  poll_flush = λ w. (ready tt, w);
  poll_shutdown = λ w. (ready tt, w);
}

abbrev two_slices : List Slice
two_slices = (1 ∷ 2 ∷ []) ∷ (3 ∷ 4 ∷ 5 ∷ 6 ∷ []) ∷ []

poll_write_vectored-Writes_example :
    Writes tar
      (λ (w : List ℕ). w)
      (some header)
      (1 ∷ 2 ∷ 3 ∷ 4 ∷ 5 ∷ 6 ∷ [])
      (in_state (receiving_data 7))
      (poll_write_vectored tar wide_sink two_slices 7 (some header) (in_state (receiving_data 7)))
unfolding take_until next contains
poll_write_vectored-Writes_example =
    poll_write_vectored-Writes tar wide_sink (λ (w : List ℕ). w)
      (λ (bytes w : List ℕ). (omega arith, refl))
      (λ (slices : List Slice) (w : List ℕ). (omega arith, refl)) (in_state (receiving_data 7))
      two_slices 7 (some header) (receiving_data 1) buf-IsValid (omega arith) refl

-- A sink that takes several slices at once, two bytes at a time.
abbrev torn_sink : AsyncWrite (List ℕ)
torn_sink = record wide_sink {
  poll_write_vectored = λ slices w. (
    ready (min 2 (length (concat slices))),
    w ++ take (min 2 (length (concat slices))) (concat slices),
  );
}

-- A header that begins with two zeros.
abbrev zeros_first : Header
zeros_first = 0 ∷ 0 ∷ 1 ∷ replicate 509 0

abbrev block_buf : Buf
block_buf = record { bytes = replicate 512 0; cap = 0; pos = 0 }

-- The two zeros are taken for the beginning of an empty block, and `poll_write_header` panics.
poll_write_header_torn :
    (poll_write_header tar torn_sink true zeros_first
      (record { buf = block_buf; state = expecting_header; io = [] })).0
    ≡ panicked invalid_state
unfolding poll_write_header write_header_loop on_write_header slices_take_prefix
    slices_split_at_byte_offset take_slices take_until next contains bytes_len flush_loop buffered
    region_is_empty prefix_take_prefix prefix_split_at_byte_offset
poll_write_header_torn = refl
