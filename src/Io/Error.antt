-- ===== src/Io/Error.antt =====
-- The errors of src/shared/state.rs, src/read/error.rs and src/write/error.rs, and the `io::Error`
-- that each becomes.
use tario.Prelude.{ℕ}

-- `state::Error`
pub data StateError : Type 0 where
  expecting_header expecting_empty_block eof : StateError

-- `ReadError`: bytes expected, bytes received.
pub data ReadError : Type 0 where
  unexpected_eof : ℕ → ℕ → ReadError

-- `WriteError`
pub data WriteError : Type 0 where
  unexpected_eof : ℕ → ℕ → WriteError
  write_zero overlapping_entry : WriteError

-- `io::ErrorKind`, as far as the crate names it; `other` is any kind that a callee reports.
pub data ErrorKind : Type 0 where
  invalid_data unexpected_eof write_zero unsupported : ErrorKind
  other : ℕ → ErrorKind

-- `io::Error`: a kind, with the value that it was made from. `checksum` has the expected and the
-- actual sum; `foreign` comes from the tar crate or from the wrapped I/O object.
pub data IoError : Type 0 where
  of_state : StateError → IoError
  of_read : ReadError → IoError
  of_write : WriteError → IoError
  checksum : ℕ → ℕ → IoError
  simple : ErrorKind → IoError
  foreign : ℕ → IoError

unfoldable pub state_error_kind : StateError → ErrorKind
state_error_kind e = invalid_data

unfoldable pub read_error_kind : ReadError → ErrorKind
read_error_kind (ReadError.unexpected_eof expected received) = ErrorKind.unexpected_eof

unfoldable pub write_error_kind : WriteError → ErrorKind
write_error_kind (WriteError.unexpected_eof expected received) = ErrorKind.unexpected_eof
write_error_kind WriteError.write_zero = ErrorKind.write_zero
write_error_kind WriteError.overlapping_entry = unsupported

-- `io::Error::kind`
unfoldable pub kind : IoError → ErrorKind
unfolding state_error_kind read_error_kind write_error_kind
kind (of_state e) = state_error_kind e
kind (of_read e) = read_error_kind e
kind (of_write e) = write_error_kind e
kind (checksum expected actual) = invalid_data
kind (simple k) = k
kind (foreign n) = other n

-- The conversions into an `io::Error`, which has the kind of the value and the value itself.
abbrev pub state_error_into_io : StateError → IoError
state_error_into_io e = of_state e

abbrev pub read_error_into_io : ReadError → IoError
read_error_into_io e = of_read e

abbrev pub write_error_into_io : WriteError → IoError
write_error_into_io e = of_write e
