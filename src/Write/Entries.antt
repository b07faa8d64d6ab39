-- ===== src/Write/Entries.antt =====
-- The methods of src/write/mod.rs that write headers, entries and the end of the archive, and those
-- of `Entry` that call them.
use tario.Prelude.{
  ℕ, zero, suc, ◌*◌, Bool, true, false, not, ◌&&◌, ◌||◌, none, some, List, [], ◌∷◌, ltb, ◌==◌,
  if◌then◌else◌,
}
use tario.Io.Error.{write_error_into_io, WriteError}
use tario.Io.Result.{ok, assert, slice_to, slice_from, assertion, invalid_state, no_fuel}
use tario.Io.Poll.{
  ready, failed, pending, panicked, Call, done, fail, crash, awaits, ◌>>=◌, ◌>>◌, attempt, asks,
}
use tario.Block.{Header, Tar, block_size, empty_block}
use tario.Slices.{Slice, bytes_len}
use tario.State.{
  State, expecting_header, receiving_header, received_header, receiving_data, received_data,
  aligning_data, aligned_data, receiving_eof, received_eof, state_eq,
}
use tario.Archive.{Archive, Entry, new_entry}
use tario.Write.Calls.{
  AsyncWrite, checked_sub, on_io, zero_write, poll_flush_buffered, poll_write_data,
  poll_write_vectored, takes_marker, poll_finish_entry,
}

-- `debug` says whether debug assertions are on.
module _ {W : Type 0} (tar : Tar) (sink : AsyncWrite W) (debug : Bool) where
  abbrev pub Action : Type 0 → Type 0
  Action A = Call (Archive W) A

  abbrev pub debug_assert : Bool → Action (Unit {0})
  debug_assert c = attempt (assert (not debug || c) assertion)

  -- The finish in `poll_write_entry`, whose error is only asserted not to be one.
  unfoldable pub finish_quietly : Header → Action (Unit {0})
  unfolding poll_finish_entry
  finish_quietly header a =
      let (r, a') = poll_finish_entry tar sink header a in
      elim r [
        | ready _ ↦ (ready tt, a')
        | failed e ↦ debug_assert false a'
        | pending ↦ (pending, a')
        | panicked p ↦ (panicked p, a')
      ]

  -- The branch of `poll_write_entry` for an entry whose data are all written.
  unfoldable pub finish_written : List Slice → ℕ → Header → Action (Unit {0})
  unfolding finish_quietly
  finish_written bufs n header = do
    debug_assert (bytes_len bufs == n)
    s ← asks (λ a. ok a.state)
    debug_assert (state_eq s received_data)
    finish_quietly header

  -- The branch of `poll_write_entry` in an entry with `rem` bytes left.
  unfoldable pub write_some : List Slice → Header → ℕ → Action ℕ
  unfolding finish_written poll_write_vectored
  write_some bufs header rem = do
    n ← poll_write_vectored tar sink bufs rem (some header)
    if n == rem then finish_written bufs n header else done tt
    done n

  unfoldable pub on_write_entry : List Slice → Header → State → Action ℕ
  unfolding write_some
  on_write_entry bufs header (receiving_data rem) = write_some bufs header rem
  on_write_entry bufs header _ = crash invalid_state

  -- `Archive::poll_write_entry`
  unfoldable pub poll_write_entry : List Slice → Header → Action ℕ
  unfolding on_write_entry
  poll_write_entry bufs header = do s ← asks (λ a. ok a.state); on_write_entry bufs header s

  -- `Archive::poll_flush`
  unfoldable pub poll_flush : Action (Unit {0})
  unfolding poll_flush_buffered
  poll_flush = poll_flush_buffered tar sink >> on_io tar sink sink.poll_flush

  -- What the loop of `poll_write_header` does in a state.
  unfoldable pub on_write_header : Header → Action (Unit {0}) → State → Action (Unit {0})
  unfolding poll_write_data takes_marker
  on_write_header header again expecting_header = do
    n ← poll_write_data tar sink header (some header)
    if n == 0 then fail (zero_write tar sink) else again
  on_write_header header again (receiving_header rem false) = do
    pos ← attempt (checked_sub block_size rem)
    buf ← attempt (slice_from header pos)
    n ← poll_write_data tar sink buf (some header)
    if n == 0 && ltb 0 rem then fail (zero_write tar sink) else again
  on_write_header header again received_header = takes_marker tar sink (some header)
  on_write_header header again (receiving_data _) =
      fail (write_error_into_io WriteError.overlapping_entry)
  on_write_header header again received_data =
      fail (write_error_into_io WriteError.overlapping_entry)
  on_write_header header again (aligning_data _) =
      fail (write_error_into_io WriteError.overlapping_entry)
  on_write_header header again aligned_data =
      fail (write_error_into_io WriteError.overlapping_entry)
  on_write_header header again (receiving_header rem true) = crash invalid_state
  on_write_header header again (receiving_eof _) = crash invalid_state
  on_write_header header again received_eof = crash invalid_state

  unfoldable pub write_header_loop : ℕ → Header → Action (Unit {0})
  write_header_loop zero header = crash no_fuel
  write_header_loop (suc fuel) header = do
    s ← asks (λ a. ok a.state)
    on_write_header header (write_header_loop fuel header) s

  -- `Archive::poll_write_header`; each round writes a byte of the header, or is the last one.
  unfoldable pub poll_write_header : Header → Action (Unit {0})
  poll_write_header header = write_header_loop (2 * block_size) header

  -- What the loop of `poll_finish` does in a state.
  unfoldable pub on_finish : Action (Unit {0}) → State → Action (Unit {0})
  unfolding poll_write_data poll_flush_buffered
  on_finish again expecting_header = poll_write_data tar sink empty_block none >> again
  on_finish again (receiving_header rem true) = do
    buf ← attempt (slice_to empty_block rem)
    poll_write_data tar sink buf none
    again
  on_finish again (receiving_eof rem) = do
    buf ← attempt (slice_to empty_block rem)
    poll_write_data tar sink buf none
    again
  on_finish again received_eof = poll_flush_buffered tar sink >> on_io tar sink sink.poll_shutdown
  on_finish again (receiving_header rem false) = crash invalid_state
  on_finish again received_header = crash invalid_state
  on_finish again (receiving_data _) = crash invalid_state
  on_finish again received_data = crash invalid_state
  on_finish again (aligning_data _) = crash invalid_state
  on_finish again aligned_data = crash invalid_state

  -- `Archive::poll_finish`, on so many rounds: a sink that takes no bytes keeps its loop going.
  unfoldable pub poll_finish : ℕ → Action (Unit {0})
  unfolding on_finish
  poll_finish zero = crash no_fuel
  poll_finish (suc fuel) = do s ← asks (λ a. ok a.state); on_finish (poll_finish fuel) s

  -- `Archive::add_entry`, on so many polls.
  unfoldable pub add_entry : ℕ → Header → Action Entry
  unfolding poll_write_header
  add_entry polls header = awaits polls (poll_write_header header) >> attempt (new_entry tar header)

  -- `Archive::finish`, on so many polls and so many rounds of each.
  abbrev pub finish : ℕ → ℕ → Action (Unit {0})
  finish polls fuel = awaits polls (poll_finish fuel)

  -- `Entry::poll_write_vectored`, `Entry::poll_write` and `Entry::poll_shutdown`
  abbrev pub entry_write_vectored : Entry → List Slice → Action ℕ
  entry_write_vectored e bufs = poll_write_entry bufs e

  abbrev pub entry_write : Entry → List ℕ → Action ℕ
  entry_write e buf = entry_write_vectored e (buf ∷ [])

  unfoldable pub entry_shutdown : Entry → Action (Unit {0})
  unfolding poll_finish_entry poll_flush
  entry_shutdown e = poll_finish_entry tar sink e >> poll_flush

  -- `Entry::poll_flush`, and `Entry::finish` on so many polls.
  abbrev pub entry_flush : Entry → Action (Unit {0})
  entry_flush e = poll_flush

  abbrev pub entry_finish : ℕ → Entry → Action (Unit {0})
  entry_finish polls e = awaits polls (entry_shutdown e)

-- `Archive::is_write_vectored`, and that of `Entry`.
abbrev pub is_write_vectored : {W : Type 0} → Archive W → Bool
is_write_vectored a = true

abbrev pub entry_is_write_vectored : {W : Type 0} → Entry → Archive W → Bool
entry_is_write_vectored e a = is_write_vectored a
