-- ===== src/Read/Again.antt =====
-- A read of an entry after the one that gave no bytes.
use tario.Prelude.{
  ℕ, suc, ◌-◌, ◌<◌, min, ◌≡◌, refl, ap, ◌∙◌, inl, inr, Bool, true, false, ◌&&◌, some, List, [],
  ◌++◌, arith, ◌==◌, Bool-cases, length, take, all_zero,
}
use tario.Io.Result.{invalid_state}
use tario.Io.Poll.{panicked, pass_of, ready}
use tario.Read.Buffered.{poll_next_state_ok}
use tario.Read.Calls.{poll_read_entry, read_entry_loop, on_read_entry, AsyncRead, poll_read}
use tario.Block.{Tar, block_size}
use tario.Buffer.Contents.{contents}
use tario.Buffer.Room.{IsReady}
use tario.State.{
  expecting_header, contains, received_header, next, receiving_header, receiving_eof, aligning_data,
}
use tario.Archive.{Archive, Entry}
use tario.State.Layout.{ends}
use tario.Read.Stream.{Streams, stream, fill_some}
use tario.Read.Drain.{poll_read_end}
use tario.Read.Skip.{poll_read_entry_refilled}
use tario.Read.Padding.{poll_read_entry_pad}
use tario.Read.Consume.{settle, passes_on}

module _ {R : Type 0} (tar : Tar) (source : AsyncRead R) (e : Entry) (room : ℕ)
    (some_room : 0 < room) where
  read_entry_again :
      (a : Archive R) (rem fuel : ℕ) (z : Bool)
      → IsReady a.buf
      → 0 < length (contents a.buf)
      → a.state ≡ receiving_header rem z
      → read_entry_loop tar source (suc fuel) e a ≡ (panicked invalid_state, a)
  unfolding read_entry_loop on_read_entry next
  read_entry_again a rem fuel z r held s =
      let all = contents a.buf in
      let n = min rem (length all) in
      let blank = z && all_zero (take n all) in
      elim (Bool-cases (rem - n == 0)) [
        | inl e1 ↦ elim (Bool-cases blank) [
          | inl e2 ↦ pass_of (on_read_entry tar source e (read_entry_loop tar source fuel e)) (
              poll_next_state_ok tar source a r.valid (some e) {r = (receiving_eof block_size, n)}
                held (rw (s, e1, e2)))
          | inr e2 ↦ pass_of (on_read_entry tar source e (read_entry_loop tar source fuel e)) (
              poll_next_state_ok tar source a r.valid (some e) {r = (received_header, n)} held
                (rw (s, e1, e2)))
        ]
        | inr e1 ↦ pass_of (on_read_entry tar source e (read_entry_loop tar source fuel e)) (
            poll_next_state_ok tar source a r.valid (some e)
              {r = (receiving_header (rem - n) blank, n)} held (rw (s, e1)))
      ]

  poll_read_panics :
      (a a' : Archive R)
      → poll_read_entry tar source e a ≡ (panicked invalid_state, a')
      → poll_read tar source e room a ≡ (panicked invalid_state, a')
  unfolding poll_read
  poll_read_panics a a' shows = let test : (room == 0) ≡ false = ground arith in rw (test, shows)

  module _ (left : R → List ℕ) (good : R → Type 0) (law : Streams source left good) where
    -- The read behind the data of an entry gives no bytes, which is the end for a reader, and leaves the
    -- archive in the header that follows. When a reader asks once more, `poll_read` panics, and does not
    -- give no bytes again. The source is always ready, the buffer of whole blocks and ready to be
    -- filled, there is room for some bytes, and bytes follow the padding.
    pub poll_read-poll_read_end :
        (a : Archive R) (pad rest : List ℕ)
        → IsReady a.buf
        → good a.io
        → a.state ≡ aligning_data (length pad)
        → stream left a ≡ pad ++ rest
        → 0 < length rest
        → length pad < block_size
        → (a' : Archive R) × (a'' : Archive R) × (poll_read tar source e room a ≡ (ready [], a'))
          × (a'.state ≡ receiving_header block_size true)
          × (stream left a' ≡ rest)
          × (poll_read tar source e room a' ≡ (panicked invalid_state, a''))
    unfolding next contains settle passes_on poll_read_entry
    poll_read-poll_read_end a pad rest r g s whole more small =
        let (b, io, shows, after, g', final) =
          poll_read_entry_pad tar source left good law a e pad rest r g s whole more small in
        let (c, ended, ready', same) =
          poll_read_end tar source e room some_room a
            (record a { buf = b; state = expecting_header; io = io }) after refl shows
            (ends tar (some e) expecting_header (receiving_header block_size true) 0 [] refl refl)
            refl in
        let a' : Archive R = record {
          buf = c;
          state = receiving_header block_size true;
          io = io;
        } in
        let view : stream left a' ≡ rest = rw same final in
        let (d, io', polled, r', g'', held, same') =
          fill_some tar source left good law a' ready' g' (omega (arith, ap length view)) in
        let a'' = record a' { buf = d; io = io' } in
        (
          a',
          a'',
          ended,
          refl,
          view,
          poll_read_panics a' a'' (
              poll_read_entry_refilled tar source e a' a'' r' held polled
              ∙ read_entry_again a'' block_size 1023 true r' held refl),
        )
