-- ===== src/Read/Eof.antt =====
-- The reading methods of src/read/mod.rs where the source ends too early.
use tario.Prelude.{
  ℕ, suc, ◌-◌, ◌<◌, ◌≡◌, refl, ◌∙◌, false, Option, none, some, [], arith, ◌==◌, length,
}
use tario.Io.Error.{ErrorKind, IoError, simple}
use tario.Io.Poll.{ready, failed, pass_of}
use tario.Buffer.{capacity}
use tario.Buffer.Contents.{contents}
use tario.Buffer.Room.{IsReady, stored, stored_none}
use tario.State.{u64_size, is_terminal}
use tario.Read.Fill.{puts_none, refill_lem, poll_fill_buf_refills}
use tario.Read.Calls.{
  skip_loop, poll_skip_entry, AsyncRead, poll_fill_buf, poll_next_state, poll_next_entry,
  next_entry_loop, on_next_entry, read_entry_loop, on_read_entry, poll_read_entry, poll_read,
}
use tario.Block.{Tar, Header}
use tario.Archive.{Archive, Entry}

abbrev pub too_early : IoError
too_early = simple ErrorKind.unexpected_eof

module _ {R : Type 0} (tar : Tar) (source : AsyncRead R) (a b : Archive R) where
  next_state_fails :
      (header : Option Header)
      → poll_fill_buf tar source a ≡ (failed too_early, b)
      → poll_next_state tar source header a ≡ (failed too_early, b)
  unfolding poll_next_state
  next_state_fails header fails = rw fails

  next_entry_fails :
      poll_fill_buf tar source a ≡ (failed too_early, b)
      → is_terminal a.state ≡ false
      → poll_next_entry tar source a ≡ (failed too_early, b)
  unfolding poll_next_entry next_entry_loop
  next_entry_fails fails going = rw going (
      pass_of (on_next_entry tar source (next_entry_loop tar source 2047))
        (next_state_fails none fails))

  read_entry_fails :
      (e : Entry)
      → poll_fill_buf tar source a ≡ (failed too_early, b)
      → poll_read_entry tar source e a ≡ (failed too_early, b)
  unfolding poll_read_entry read_entry_loop
  read_entry_fails e fails =
      pass_of (on_read_entry tar source e (read_entry_loop tar source 1023 e))
        (next_state_fails (some e) fails)

  read_fails :
      (e : Entry) (room : ℕ)
      → 0 < room
      → poll_read_entry tar source e a ≡ (failed too_early, b)
      → poll_read tar source e room a ≡ (failed too_early, b)
  unfolding poll_read
  read_fails e room some_room fails =
      let test : (room == 0) ≡ false = ground arith in rw (test, fails)

  skip_loop_fails :
      (e : Entry) (rounds : ℕ)
      → poll_read_entry tar source e a ≡ (failed too_early, b)
      → skip_loop tar source (suc rounds) e a ≡ (failed too_early, b)
  unfolding skip_loop
  skip_loop_fails e rounds fails = rw fails

  skip_fails :
      (e : Entry)
      → poll_read_entry tar source e a ≡ (failed too_early, b)
      → poll_skip_entry tar source e a ≡ (failed too_early, b)
  unfolding poll_skip_entry
  skip_fails e fails = skip_loop_fails e (u64_size - 1) fails

module _ {R : Type 0} (tar : Tar) (source : AsyncRead R) where
  fill_fails :
      (a : Archive R) {io : R}
      → IsReady a.buf
      → length (contents a.buf) ≡ 0
      → is_terminal a.state ≡ false
      → source.poll_read (capacity a.buf - a.buf.cap) a.io ≡ (ready [], io)
      → poll_fill_buf tar source a ≡ (failed too_early, record a { buf = stored a.buf []; io = io })
  fill_fails a {io} r none_left going ended =
      poll_fill_buf_refills tar source a r.valid none_left
      ∙ (refill_lem tar source a r ended
          ∙ (puts_none tar source (record a { io = io }) r none_left ∙ rw going refl))

  -- Where the source has ended and nothing is buffered, before the end of the archive, every reading
  -- call fails with `UnexpectedEof`, on a buffer that is ready to be filled, of a size that is a
  -- positive multiple of 512: `poll_next_entry`, `poll_read` with room for some bytes, and
  -- `poll_skip_entry`. So it is in every state but the end, also where the doc comments say that the
  -- call panics: `poll_next_entry` while an entry is being read, and `poll_read` while none is. The
  -- state is as it was, and the buffer is again empty and ready to be filled.
  pub reads_too_early :
      (a : Archive R) (e : Entry) (room : ℕ) (io : R)
      → IsReady a.buf
      → length (contents a.buf) ≡ 0
      → is_terminal a.state ≡ false
      → source.poll_read (capacity a.buf - a.buf.cap) a.io ≡ (ready [], io)
      → 0 < room
      → (b : Archive R) × (poll_next_entry tar source a ≡ (failed too_early, b))
        × (poll_read tar source e room a ≡ (failed too_early, b))
        × (poll_skip_entry tar source e a ≡ (failed too_early, b))
        × (b.state ≡ a.state)
        × IsReady b.buf
        × (contents b.buf ≡ contents a.buf)
  reads_too_early a e room io r none_left going ended some_room =
      let fails = fill_fails a r none_left going ended in
      let (after, same) = stored_none r none_left in
      let b = record a { buf = stored a.buf []; io = io } in
      let entry = read_entry_fails tar source a b e fails in
      (
        b,
        next_entry_fails tar source a b fails going,
        read_fails tar source a b e room some_room entry,
        skip_fails tar source a b e entry,
        refl,
        after,
        same,
      )
