-- ===== src/Archive.antt =====
-- src/lib.rs: an archive over an I/O object, and the entries that it hands out.
pub mod Start
pub mod Waits
use tario.Prelude.{◌==◌, Bool, Bool, ℕ, ◌*◌, ltb}
use tario.Io.Result.{Result, ok, ◌>>=◌, ◌>>◌, assert, overflow, assertion, unwrap}
use tario.Block.{Header, Tar, lift, block_size}
use tario.Buffer.{Buf}
use tario.Buffer
use tario.State.{State, default}

-- `Archive<T>`
pub record Archive (T : Type 0) : Type 0 where
  pub buf : Buf
  pub state : State
  pub io : T

-- `DEFAULT_BUFFER_CAPACITY`, in blocks.
abbrev pub default_buffer_capacity : ℕ
default_buffer_capacity = 8

-- `Archive::with_capacity`; a `NonZeroUsize` is not 0.
unfoldable pub with_capacity : {T : Type 0} → T → ℕ → Result (Archive T)
with_capacity io capacity = do
  assert (ltb (capacity * block_size) Buffer.usize_size) overflow
  b ← Buffer.new (capacity * block_size)
  ok (record { buf = b; state = default; io = io })

-- `Archive::new`
unfoldable pub new : {T : Type 0} → T → Result (Archive T)
unfolding with_capacity
new io = with_capacity io default_buffer_capacity

-- `Archive::into_inner`
abbrev pub into_inner : {T : Type 0} → Archive T → T
into_inner a = a.io

-- `Entry<T>` borrows the archive, so an entry is its header alone; the archive is passed on.
abbrev pub Entry : Type 0
Entry = Header

-- `Entry::new`
unfoldable pub new_entry : Tar → Header → Result Entry
new_entry tar header = do
  cksum ← lift (tar.cksum header)
  assert (ltb 0 cksum) assertion
  size ← lift (tar.size header)
  ok header

-- `Entry::size`, `Entry::len` and `Entry::is_empty`, with their `unwrap`.
unfoldable pub size : Tar → Entry → Result ℕ
size tar e = unwrap (lift (tar.size e))

unfoldable pub len : Tar → Entry → Result ℕ
len tar e = unwrap (lift (tar.entry_size e))

unfoldable pub has_no_data : Tar → Entry → Result Bool
unfolding len
has_no_data tar e = do n ← len tar e; ok (n == 0)

-- `Entry::header`
abbrev pub header : Entry → Header
header e = e
