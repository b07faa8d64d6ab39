-- ===== src/State.antt =====
-- src/shared/state.rs: the state machine that follows a TAR byte stream.
pub mod Next
pub mod Until
pub mod Chunks
pub mod Invariant
pub mod Range
pub mod Front
pub mod Layout
pub mod Taken
pub mod Stream
use tario.Prelude.{
  ℕ, zero, suc, ◌+◌, ◌-◌, ◌*◌, ◌%◌, ◌^◌, Bool, true, false, ◌&&◌, ◌||◌, not, Option, none, some,
  List, [], ◌∷◌, ◌==◌, ltb, min, if◌then◌else◌, length, take, is_empty, all_zero,
}
use tario.Io.Error.{expecting_empty_block, eof}
use tario.Io.Result.{
  state_error_into_result, Result, ok, err, panic, ◌>>=◌, ◌>>◌, assert, slice_from, no_header,
  not_marker, overflow, assertion, no_fuel,
}
use tario.Block.{Header, Tar, lift, block_size}

pub data State : Type 0 where
  expecting_header : State
  receiving_header : ℕ → Bool → State
  received_header : State
  receiving_data : ℕ → State
  received_data : State
  aligning_data : ℕ → State
  aligned_data : State
  receiving_eof : ℕ → State
  received_eof : State

-- `State::default`
abbrev pub default : State
default = expecting_header

-- The derived `==` of the source.
unfoldable pub state_eq : State → State → Bool
state_eq expecting_header expecting_header = true
state_eq (receiving_header a e) (receiving_header b f) = a == b && (if e then f else not f)
state_eq received_header received_header = true
state_eq (receiving_data a) (receiving_data b) = a == b
state_eq received_data received_data = true
state_eq (aligning_data a) (aligning_data b) = a == b
state_eq aligned_data aligned_data = true
state_eq (receiving_eof a) (receiving_eof b) = a == b
state_eq received_eof received_eof = true
state_eq _ _ = false

-- `[State]::contains`
unfoldable pub contains : List State → State → Bool
unfolding state_eq
contains [] s = false
contains (t ∷ ts) s = state_eq t s || contains ts s

unfoldable pub is_terminal : State → Bool
is_terminal received_eof = true
is_terminal (receiving_eof rem) = rem == 0
is_terminal _ = false

unfoldable pub is_marker : State → Bool
is_marker expecting_header = true
is_marker received_header = true
is_marker received_data = true
is_marker aligned_data = true
is_marker received_eof = true
is_marker _ = false

-- The helper of `next`: how far into the buffer a read of at most `max` bytes goes.
abbrev pub advance : List ℕ → ℕ → ℕ
advance buf max = min max (length buf)

-- The helper of `next`: the bytes read, and whether they are all zero.
abbrev pub read : List ℕ → ℕ → ℕ × Bool
read buf rem = let len = advance buf rem in (len, all_zero (take len buf))

abbrev pub u64_size : ℕ
u64_size = 2 ^ 64

-- `u64::next_multiple_of` at `BLOCK_SIZE`, which panics on overflow.
unfoldable pub next_multiple_of_block : ℕ → Result ℕ
next_multiple_of_block n =
    let r = n % block_size in
    if r == 0
    then ok n
    else if ltb (n + (block_size - r)) u64_size
    then ok (n + (block_size - r))
    else panic overflow

-- The `assert!` on the header, its `unwrap`, and `entry_size()?`.
unfoldable pub entry_size : Tar → Option Header → Result ℕ
entry_size tar none = panic no_header
entry_size tar (some h) = lift (tar.entry_size h)

-- `State::next`
unfoldable pub next : Tar → State → List ℕ → Option Header → Result (State × ℕ)
unfolding next_multiple_of_block entry_size
next tar expecting_header buf hdr = ok (receiving_header block_size true, 0)
next tar (receiving_header rem was_empty) buf hdr =
    let (len, empty) = read buf rem in
    if rem - len == 0
    then if was_empty && empty
      then ok (receiving_eof block_size, len)
      else ok (received_header, len)
    else ok (receiving_header (rem - len) (was_empty && empty), len)
next tar received_header buf hdr = do rem ← entry_size tar hdr; ok (receiving_data rem, 0)
next tar (receiving_data rem) buf hdr =
    let len = advance buf rem in
    if rem - len == 0 then ok (received_data, len) else ok (receiving_data (rem - len), len)
next tar received_data buf hdr = do
  rem ← entry_size tar hdr
  multiple ← next_multiple_of_block rem
  ok (aligning_data (multiple - rem), 0)
next tar (aligning_data rem) buf hdr =
    let len = advance buf rem in
    if rem - len == 0 then ok (aligned_data, len) else ok (aligning_data (rem - len), len)
next tar aligned_data buf hdr = ok (expecting_header, 0)
next tar (receiving_eof rem) buf hdr =
    let (len, empty) = read buf rem in
    if not empty
    then state_error_into_result expecting_empty_block
    else if rem - len == 0
    then ok (received_eof, len)
    else ok (receiving_eof (rem - len), len)
next tar received_eof buf hdr = state_error_into_result eof

-- `State::take_marker`, as the new state.
unfoldable pub take_marker : Tar → State → Option Header → Result State
unfolding is_marker next
take_marker tar s hdr = do
  assert (is_marker s) not_marker
  (t, pos) ← next tar s [] hdr
  assert (pos == 0) assertion
  ok t

-- The loop of `take_until`, on fuel.
unfoldable pub take_until_loop :
    Tar → ℕ → List State → State → ℕ → List ℕ → Option Header → Result (State × ℕ)
take_until_loop tar zero stop s cur buf hdr = panic no_fuel
take_until_loop tar (suc fuel) stop s cur buf hdr = do
  (t, n) ← next tar s buf hdr
  rest ← slice_from buf n
  let again = take_until_loop tar fuel stop t (cur + n) rest hdr
  if contains stop t || is_empty rest then ok (t, cur + n) else again

-- Rounds that are enough for a buffer, with a margin for the moves that read nothing.
abbrev pub enough : List ℕ → ℕ
enough buf = 10 * length buf + 10

-- `State::take_until`
unfoldable pub take_until : Tar → State → List State → List ℕ → Option Header → Result (State × ℕ)
unfolding take_until_loop
take_until tar s stop buf hdr = take_until_loop tar (enough buf) stop s 0 buf hdr

-- The states at which `take_slices` returns early.
abbrev pub stops : List State
stops = received_header ∷ received_eof ∷ []

-- The loop of `take_slices` over the slices, with `needs_next`, and the call after it.
unfoldable pub take_slices_loop :
    Tar → List (List ℕ) → Bool → State → ℕ → Option Header → Result (State × ℕ)
take_slices_loop tar [] needs_next s cur hdr =
    if needs_next then (do (t, n) ← take_until tar s stops [] hdr; ok (t, cur + n)) else ok (s, cur)
take_slices_loop tar (buf ∷ bufs) needs_next s cur hdr =
    let skipped = take_slices_loop tar bufs needs_next s cur hdr in
    let taken : Result (State × ℕ) = take_until tar s stops buf hdr in
    let on = λ (r : State × ℕ).
      let later = take_slices_loop tar bufs false r.0 (cur + r.1) hdr in
      if contains stops r.0 then ok (r.0, cur + r.1) else later in
    if is_empty buf then skipped else taken >>= on

-- `State::take_slices`
unfoldable pub take_slices : Tar → State → List (List ℕ) → Option Header → Result (State × ℕ)
unfolding take_slices_loop
take_slices tar s bufs hdr = take_slices_loop tar bufs true s 0 hdr
