-- ===== src/Read/Calls.antt =====
-- The polling methods of src/read/mod.rs.
use tario.Prelude.{
  take, min, ◌==◌, ◌*◌, [], ℕ, zero, suc, Option, none, some, List, if◌then◌else◌, length, is_empty,
}
use tario.Io.Error.{simple, ErrorKind}
use tario.Io.Result.{assert, ok, err, panic, slice_to, assertion, invalid_state, no_fuel}
use tario.Io.Poll.{
  ready, failed, panicked, Call, done, fail, crash, ◌>>=◌, ◌>>◌, attempt, asks, modify,
}
use tario.Block.{Header, Tar, block_size, from_bytes, as_header}
use tario.Buffer.{available, after_write, write_at, commit, buffered_bytes, available_bytes_mut}
use tario.State.{
  u64_size, state_eq, State, expecting_header, receiving_header, received_header, receiving_data,
  received_data, aligning_data, aligned_data, receiving_eof, received_eof, is_terminal, next,
}
use tario.Archive.{Archive, Entry, new_entry}
use tario.Read.Consume.{consume}

-- `AsyncRead` of the wrapped object: a poll with a `ReadBuf` of so many bytes gives those that it has
-- filled in.
pub record AsyncRead (R : Type 0) : Type 0 where
  pub poll_read : ℕ → Call R (List ℕ)

module _ {R : Type 0} (tar : Tar) (source : AsyncRead R) where
  abbrev pub Action : Type 0 → Type 0
  Action A = Call (Archive R) A

  -- A poll of the wrapped object.
  abbrev pub reads : ℕ → Action (List ℕ)
  reads room a = let (r, io) = source.poll_read room a.io in (r, record a { io = io })

  -- The `consume` of an archive, in place.
  unfoldable pub consumes : ℕ → Option Header → Action (Unit {0})
  consumes amt header a = elim (consume tar a amt header) [
    | ok a' ↦ (ready tt, a')
    | err e ↦ (failed e, a)
    | panic p ↦ (panicked p, a)
  ]

  -- The bytes that the poll has put into the free part of the buffer.
  abbrev pub stores : List ℕ → Action (Unit {0})
  stores got =
      modify (λ a. record a { buf = record a.buf { bytes = write_at a.buf.bytes a.buf.cap got } })

  -- `this.buf.available().commit(n)`
  unfoldable pub commits : ℕ → Action (Unit {0})
  commits n a = elim (commit (available a.buf) n) [
    | ok r ↦ (ready tt, record a { buf = after_write a.buf r })
    | err e ↦ (failed e, a)
    | panic p ↦ (panicked p, a)
  ]

  -- The checks of `poll_fill_buf` on a read of no bytes.
  unfoldable pub check_eof : List ℕ → State → Action (Unit {0})
  check_eof room s =
      if is_empty room
      then crash assertion
      else if is_terminal s
      then done tt
      else fail (simple ErrorKind.unexpected_eof)

  -- The branch of `poll_fill_buf` that reads from the source object.
  unfoldable pub refill : Action (Unit {0})
  unfolding check_eof commits
  refill = do
    room ← asks (λ a. available_bytes_mut a.buf)
    got ← reads (length room)
    stores got
    s ← asks (λ a. ok a.state)
    left ← asks (λ a. available_bytes_mut a.buf)
    if is_empty got then check_eof left s else done tt
    commits (length got)

  -- `Archive::poll_fill_buf`
  unfoldable pub poll_fill_buf : Action (Unit {0})
  unfolding refill
  poll_fill_buf = do
    bytes ← asks (λ a. buffered_bytes a.buf)
    if is_empty bytes then refill else done tt

  -- `Archive::poll_next_state`
  unfoldable pub poll_next_state : Option Header → Action (State × ℕ)
  unfolding poll_fill_buf
  poll_next_state header = do
    poll_fill_buf
    bytes ← asks (λ a. buffered_bytes a.buf)
    asks (λ a. next tar a.state bytes header)

  -- The branch of `poll_next_entry` for a header.
  unfoldable pub take_entry : ℕ → Action (Option Entry)
  unfolding consumes
  take_entry amt = do
    bytes ← asks (λ a. buffered_bytes a.buf)
    front ← attempt (slice_to bytes block_size)
    block ← attempt (from_bytes front)
    header ← attempt (as_header tar block)
    consumes amt (some header)
    entry ← attempt (new_entry tar header)
    done (some entry)

  -- What the loop of `poll_next_entry` does with a state; `again` is the next round.
  unfoldable pub on_next_entry : Action (Option Entry) → State × ℕ → Action (Option Entry)
  unfolding take_entry consumes
  on_next_entry again (received_header, amt) = take_entry amt
  on_next_entry again (received_eof, amt) = consumes amt none >> done none
  on_next_entry again (receiving_header _ _, amt) = consumes amt none >> again
  on_next_entry again (receiving_eof _, amt) = consumes amt none >> again
  on_next_entry again (aligning_data _, amt) = consumes amt none >> again
  on_next_entry again (aligned_data, amt) = consumes amt none >> again
  on_next_entry again (expecting_header, amt) = crash invalid_state
  on_next_entry again (receiving_data _, amt) = crash invalid_state
  on_next_entry again (received_data, amt) = crash invalid_state

  unfoldable pub next_entry_loop : ℕ → Action (Option Entry)
  next_entry_loop zero = crash no_fuel
  next_entry_loop (suc fuel) = do r ← poll_next_state none; on_next_entry (next_entry_loop fuel) r

  -- Rounds that are enough for what may precede an entry: padding, a header, and an empty block.
  abbrev pub entry_rounds : ℕ
  entry_rounds = 4 * block_size

  -- `Archive::poll_next_entry`
  unfoldable pub poll_next_entry : Action (Option Entry)
  poll_next_entry = do
    s ← asks (λ a. ok a.state)
    if is_terminal s then done none else next_entry_loop entry_rounds

  -- What the loop of `poll_read_entry` does with a state.
  unfoldable pub on_read_entry : Header → Action (List ℕ) → State × ℕ → Action (List ℕ)
  unfolding consumes
  on_read_entry header again (receiving_data _, amt) = do
    bytes ← asks (λ a. buffered_bytes a.buf)
    attempt (slice_to bytes amt)
  on_read_entry header again (received_data, amt) = do
    bytes ← asks (λ a. buffered_bytes a.buf)
    attempt (slice_to bytes amt)
  on_read_entry header again (aligning_data _, amt) = consumes amt none >> again
  on_read_entry header again (aligned_data, amt) = consumes amt (some header) >> done []
  on_read_entry header again (expecting_header, amt) = crash invalid_state
  on_read_entry header again (receiving_header _ _, amt) = crash invalid_state
  on_read_entry header again (received_header, amt) = crash invalid_state
  on_read_entry header again (receiving_eof _, amt) = crash invalid_state
  on_read_entry header again (received_eof, amt) = crash invalid_state

  unfoldable pub read_entry_loop : ℕ → Header → Action (List ℕ)
  read_entry_loop zero header = crash no_fuel
  read_entry_loop (suc fuel) header = do
    r ← poll_next_state (some header)
    on_read_entry header (read_entry_loop fuel header) r

  -- `Archive::poll_read_entry`; the padding of an entry takes less than a block of rounds.
  unfoldable pub poll_read_entry : Header → Action (List ℕ)
  poll_read_entry header = read_entry_loop (2 * block_size) header

  -- The end of `poll_skip_entry`: `assert_eq!(self.state, State::ExpectingHeader)`.
  unfoldable pub check_skipped : Action (Unit {0})
  check_skipped = do
    s ← asks (λ a. ok a.state)
    attempt (assert (state_eq s expecting_header) assertion)

  unfoldable pub skip_loop : ℕ → Header → Action (Unit {0})
  unfolding check_skipped consumes
  skip_loop zero header = crash no_fuel
  skip_loop (suc fuel) header = do
    buf ← poll_read_entry header
    let again = skip_loop fuel header
    if length buf == 0 then check_skipped else (consumes (length buf) (some header) >> again)

  -- Each round but the last one takes some of the data, whose size is a `u64`.
  abbrev pub skip_rounds : ℕ
  skip_rounds = u64_size

  -- `Archive::poll_skip_entry`
  unfoldable pub poll_skip_entry : Header → Action (Unit {0})
  poll_skip_entry header = skip_loop skip_rounds header

  -- `Entry::poll_skip`
  abbrev pub poll_skip : Entry → Action (Unit {0})
  poll_skip e = poll_skip_entry e

  -- `Entry::poll_fill_buf` and `Entry::consume`
  abbrev pub entry_fill_buf : Entry → Action (List ℕ)
  entry_fill_buf e = poll_read_entry e

  abbrev pub entry_consume : Entry → ℕ → Action (Unit {0})
  entry_consume e amt = consumes amt (some e)

  -- `Entry::poll_read`, as the bytes that it puts into a `ReadBuf` with room for so many.
  unfoldable pub poll_read : Entry → ℕ → Action (List ℕ)
  unfolding poll_read_entry consumes
  poll_read e room =
      if room == 0
      then done []
      else (entry_fill_buf e >>= λ bytes.
          let n = min (length bytes) room in entry_consume e n >> done (take n bytes))
