-- ===== src/Read/Faults.antt =====
-- What the reading methods do with a header that comes in pieces, and with the skip of an entry that
-- holds no data.
use tario.Prelude.{
  ℕ, suc, ◌-◌, ◌≤◌, ◌<◌, min, ◌≡◌, ap, ◌∙◌, Bool, true, false, ◌&&◌, none, some, [], arith, ◌==◌,
  if◌then◌else◌, length, take, all_zero,
}
use tario.Io.Result.{ok, panic, out_of_range, assertion, slice_to, slice_to_lem}
use tario.Io.Poll.{ready, panicked, done, pass_of}
use tario.Block.{Tar, block_size}
use tario.Buffer.Contents.{IsValid, contents, buffered_bytes_lem}
use tario.State.{
  u64_size, State, receiving_header, received_header, receiving_data, received_data, next,
  is_terminal, state_eq,
}
use tario.Archive.{Archive, Entry}
use tario.Read.Calls.{
  AsyncRead, poll_next_entry, next_entry_loop, on_next_entry, take_entry, poll_skip_entry,
  skip_loop, poll_read_entry, read_entry_loop, on_read_entry, check_skipped,
}
use tario.Read.Buffered.{poll_next_state_ok}

module _ {R : Type 0} (tar : Tar) (source : AsyncRead R) (a : Archive R) (v : IsValid a.buf)
    (held : 0 < length (contents a.buf)) where
  next_entry_loop_short :
      (rem : ℕ) (z : Bool) (fuel : ℕ)
      → a.state ≡ receiving_header rem z
      → rem ≤ length (contents a.buf)
      → length (contents a.buf) < block_size
      → (z && all_zero (take rem (contents a.buf))) ≡ false
      → next_entry_loop tar source (suc fuel) a ≡ (panicked out_of_range, a)
  unfolding next_entry_loop on_next_entry take_entry next
  next_entry_loop_short rem z fuel s fits short filled =
      let all = contents a.buf in
      let m : min rem (length all) ≡ rem = omega arith in
      let e : (rem - rem == 0) ≡ true = ground arith in
      let cut : slice_to all block_size ≡ panic out_of_range = ground arith in
      pass_of (on_next_entry tar source (next_entry_loop tar source fuel)) (
        poll_next_state_ok tar source a v none {r = (received_header, rem)} held
          (rw (s, m, e, filled)))
      ∙ rw (buffered_bytes_lem v, cut)

  -- When the last bytes of a header that was received in pieces are in a valid buffer, and fewer than
  -- 512 bytes are, `poll_next_entry` panics, unless the block is all zero: it looks for the whole header
  -- there, whose first bytes have been consumed.
  pub poll_next_entry_short :
      (rem : ℕ) (z : Bool)
      → a.state ≡ receiving_header rem z
      → rem ≤ length (contents a.buf)
      → length (contents a.buf) < block_size
      → (z && all_zero (take rem (contents a.buf))) ≡ false
      → poll_next_entry tar source a ≡ (panicked out_of_range, a)
  unfolding poll_next_entry is_terminal
  poll_next_entry_short rem z s fits short filled =
      ap (λ (t : State). (if is_terminal t then done none else next_entry_loop tar source 2048) a) s
      ∙ next_entry_loop_short rem z 2047 s fits short filled

  read_entry_loop_empty :
      (e : Entry) (fuel : ℕ)
      → a.state ≡ receiving_data 0
      → read_entry_loop tar source (suc fuel) e a ≡ (ready [], a)
  unfolding read_entry_loop on_read_entry next
  read_entry_loop_empty e fuel s =
      let m : min 0 (length (contents a.buf)) ≡ 0 = omega arith in
      let shows : slice_to (contents a.buf) 0 ≡ ok (take 0 (contents a.buf)) =
        slice_to_lem (contents a.buf) 0 (omega arith) in
      pass_of (on_read_entry tar source e (read_entry_loop tar source fuel e))
        (poll_next_state_ok tar source a v (some e) {r = (received_data, 0)} held (rw (s, m)))
      ∙ rw (buffered_bytes_lem v, shows)

  pub poll_read_entry_empty :
      (e : Entry) → a.state ≡ receiving_data 0 → poll_read_entry tar source e a ≡ (ready [], a)
  unfolding poll_read_entry
  poll_read_entry_empty e s = read_entry_loop_empty e 1023 s

  skip_loop_empty :
      (e : Entry) (fuel : ℕ)
      → a.state ≡ receiving_data 0
      → skip_loop tar source (suc fuel) e a ≡ (panicked assertion, a)
  unfolding skip_loop check_skipped state_eq
  skip_loop_empty e fuel s = rw (poll_read_entry_empty e s, s)

  -- The skip of an entry without data panics, where a valid buffer holds bytes: the state is still the
  -- one behind the header when `poll_read_entry` gives no bytes, and the skip asserts that it is the one
  -- before the next header.
  pub poll_skip_entry_empty :
      (e : Entry)
      → a.state ≡ receiving_data 0
      → poll_skip_entry tar source e a ≡ (panicked assertion, a)
  unfolding poll_skip_entry
  poll_skip_entry_empty e s = skip_loop_empty e (u64_size - 1) s
