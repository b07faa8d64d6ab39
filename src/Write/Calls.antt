-- ===== src/Write/Calls.antt =====
-- The polling methods of src/write/mod.rs.
use tario.Prelude.{
  ℕ, zero, suc, ◌+◌, ◌-◌, ◌*◌, Bool, ◌&&◌, Option, none, some, List, [], ◌∷◌, ltb, leb, ◌==◌,
  if◌then◌else◌, length,
}
use tario.Io.Error.{IoError, write_error_into_io, WriteError}
use tario.Io.Result
use tario.Io.Result.{
  Result, ok, err, panic, assert, unwrap, slice_to, slice_from, assertion, overflow, invalid_state,
  no_fuel,
}
use tario.Io.Poll.{
  ready, failed, pending, panicked, Call, done, fail, crash, ◌>>=◌, ◌>>◌, attempt, asks, modify,
}
use tario.Block.{Header, Tar, block_size, empty_block}
use tario.Buffer.{
  usize_size, after_read, after_write, available, capacity, clear, commit, remaining,
  region_is_empty, region_bytes, buffered, fill_from_slices,
}
use tario.Slices.{Slice, Prefix, prefix_iter, bytes_len, slices_take_prefix, prefix_take_prefix}
use tario.State.{
  State, expecting_header, receiving_header, received_header, receiving_data, received_data,
  aligning_data, aligned_data, receiving_eof, received_eof, take_slices, take_marker,
}
use tario.Archive.{Archive}

-- `AsyncWrite` of the wrapped object.
pub record AsyncWrite (W : Type 0) : Type 0 where
  pub poll_write : List ℕ → Call W ℕ
  pub poll_write_vectored : List Slice → Call W ℕ
  pub is_write_vectored : W → Bool
  pub poll_flush : Call W (Unit {0})
  pub poll_shutdown : Call W (Unit {0})

-- A subtraction of `usize`, which panics below 0.
abbrev pub checked_sub : ℕ → ℕ → Result ℕ
checked_sub a b = if leb b a then ok (a - b) else panic overflow

module _ {W : Type 0} (tar : Tar) (sink : AsyncWrite W) where
  abbrev pub Action : Type 0 → Type 0
  Action A = Call (Archive W) A

  -- A call of the wrapped object.
  abbrev pub on_io : {A : Type 0} → Call W A → Action A
  on_io call a = let (r, io) = call a.io in (r, record a { io = io })

  abbrev pub zero_write : IoError
  zero_write = write_error_into_io WriteError.write_zero

  -- `buf.commit(n)` on the region of buffered bytes.
  unfoldable pub commits_read : ℕ → Action (Unit {0})
  commits_read n a = elim (Result.◌>>=◌ (buffered a.buf) (λ r. commit r n)) [
    | ok r ↦ (ready tt, record a { buf = after_read a.buf r })
    | err e ↦ (failed e, a)
    | panic p ↦ (panicked p, a)
  ]

  -- The body of the loop of `poll_flush_buffered`.
  unfoldable pub flush_round : Action (Unit {0})
  unfolding commits_read
  flush_round = do
    bytes ← asks (λ a. Result.◌>>=◌ (buffered a.buf) region_bytes)
    n ← on_io (sink.poll_write bytes)
    if n == 0 then fail zero_write else commits_read n

  unfoldable pub flush_loop : ℕ → Action (Unit {0})
  unfolding flush_round
  flush_loop zero = crash no_fuel
  flush_loop (suc fuel) = do
    drained ← asks (λ a. Result.◌>>=◌ (buffered a.buf) region_is_empty)
    let again = flush_loop fuel
    if drained then done tt else (flush_round >> again)

  -- `Archive::poll_flush_buffered`; each round sends a byte at least, of those that a `usize` counts.
  unfoldable pub poll_flush_buffered : Action (Unit {0})
  poll_flush_buffered = do flush_loop usize_size; modify (λ a. record a { buf = clear a.buf })

  -- The write of the part of a slice behind the `n` bytes that are written. An error of it, or its
  -- being pending, is not passed on, since some bytes are written.
  unfoldable pub add_remainder : Prefix → ℕ → Action ℕ
  add_remainder prefix n a =
      let (r, io) = sink.poll_write prefix.remainder a.io in
      let a' = record a { io = io } in
      elim r [
        | ready w ↦ (ready (n + w), a')
        | failed e ↦ (ready n, a')
        | pending ↦ (ready n, a')
        | panicked p ↦ (panicked p, a')
      ]

  -- The branch of `poll_write_vectored` that passes the slices through, unbuffered.
  unfoldable pub pass_through : Prefix → ℕ → Action ℕ
  unfolding add_remainder
  pass_through prefix prefix_len = do
    slices_len ← attempt (checked_sub prefix_len (length prefix.remainder))
    n ← on_io (sink.poll_write_vectored prefix.slices)
    if n == slices_len then add_remainder prefix n else done n

  -- The branch that fills the buffer.
  unfoldable pub buffer_up : Prefix → Action ℕ
  buffer_up prefix a = elim (fill_from_slices (available a.buf) (prefix_iter prefix)) [
    | ok (r, n) ↦ (ready n, record a { buf = after_write a.buf r })
    | err e ↦ (failed e, a)
    | panic p ↦ (panicked p, a)
  ]

  -- The state after `n` bytes of the prefix; `next` is the one after all of it.
  unfoldable pub state_after : State → Prefix → ℕ → State × ℕ → ℕ → Option Header → Result State
  state_after s prefix prefix_len next n header =
      if n == prefix_len
      then ok next.0
      else Result.◌>>=◌ (prefix_take_prefix prefix n) (λ front.
        Result.◌>>=◌ (unwrap (take_slices tar s (prefix_iter front) header))
          (λ t. Result.◌>>◌ (assert (t.1 == n) assertion) (ok t.0)))

  abbrev pub set_state : State → Action (Unit {0})
  set_state s = modify (λ a. record a { state = s })

  -- Whether `poll_write_vectored` passes the slices through.
  abbrev pub can_pass_through : ℕ → Archive W → Bool
  can_pass_through prefix_len a = leb (capacity a.buf) prefix_len && sink.is_write_vectored a.io

  -- The first half of `poll_write_vectored`: what is to be written is checked, and room is made.
  unfoldable pub make_room : ℕ → Bool → Action (Unit {0})
  unfolding poll_flush_buffered
  make_room prefix_len through =
      if through
      then poll_flush_buffered
      else (asks (λ a. remaining (available a.buf)) >>= λ room.
          if ltb room prefix_len then poll_flush_buffered else done tt)

  -- `Archive::poll_write_vectored`
  unfoldable pub poll_write_vectored : List Slice → ℕ → Option Header → Action ℕ
  unfolding make_room pass_through buffer_up state_after
  poll_write_vectored bufs max header = do
    prefix ← attempt (slices_take_prefix bufs max)
    let prefix_len = bytes_len (prefix_iter prefix)
    next ← asks (λ a. take_slices tar a.state (prefix_iter prefix) header)
    attempt (assert (next.1 == prefix_len) assertion)
    through ← asks (λ a. ok (can_pass_through prefix_len a))
    make_room prefix_len through
    n ← if through then pass_through prefix prefix_len else buffer_up prefix
    s ← asks (λ a. state_after a.state prefix prefix_len next n header)
    set_state s
    done n

  -- `Archive::poll_write_data`
  unfoldable pub poll_write_data : List ℕ → Option Header → Action ℕ
  unfolding poll_write_vectored
  poll_write_data buf header = poll_write_vectored (buf ∷ []) (length buf) header

  -- `take_marker` on the archive's state.
  unfoldable pub takes_marker : Option Header → Action (Unit {0})
  takes_marker header = do s ← asks (λ a. take_marker tar a.state header); set_state s

  -- The loop of `poll_finish_entry`, by the state: `again` is the next round.
  unfoldable pub on_finish_entry : Header → Action (Unit {0}) → State → Action (Unit {0})
  unfolding takes_marker poll_write_data
  on_finish_entry header again received_data = takes_marker (some header) >> again
  on_finish_entry header again (aligning_data rem) = do
    pad ← attempt (slice_to empty_block rem)
    poll_write_data pad (some header)
    again
  on_finish_entry header again aligned_data = takes_marker none
  on_finish_entry header again expecting_header = done tt
  on_finish_entry header again (receiving_header _ _) = crash invalid_state
  on_finish_entry header again received_header = crash invalid_state
  on_finish_entry header again (receiving_data _) = crash invalid_state
  on_finish_entry header again (receiving_eof _) = crash invalid_state
  on_finish_entry header again received_eof = crash invalid_state

  unfoldable pub finish_entry_loop : ℕ → Header → Action (Unit {0})
  finish_entry_loop zero header = crash no_fuel
  finish_entry_loop (suc fuel) header = do
    s ← asks (λ a. ok a.state)
    on_finish_entry header (finish_entry_loop fuel header) s

  -- `Archive::poll_finish_entry`; a round takes some of the padding or goes to the next state.
  unfoldable pub poll_finish_entry : Header → Action (Unit {0})
  poll_finish_entry header = finish_entry_loop (2 * block_size) header
