-- ===== src/Lib.antt =====
-- A model of tario, which reads and writes TAR archives over asynchronous I/O objects.
--
-- An archive (src/lib.rs) is a buffer, a state and a wrapped I/O object. The state (src/shared/state.rs)
-- says where in a TAR byte stream the archive stands. Reading (src/read/mod.rs) fills the buffer from
-- the source object, asks the state what the next bytes are, and consumes them. Writing
-- (src/write/mod.rs) checks slices of bytes against the state, puts them into the buffer or passes them
-- to the sink object, and moves the state by what was taken. The slices are cut by src/shared/slices.rs,
-- the buffer is that of src/shared/buffer.rs, and headers are checked by src/shared/block.rs.
--
-- The files:
--   Io            the errors (`Error`), `io::Result` and the panics of the code as a third outcome
--                 (`Result`), and `Poll<io::Result<_>>` for calls that change what they work on (`Poll`);
--                 the texts of the errors (`Texts`), and what an `await` comes to (`Await`)
--   Block         `BLOCK_SIZE`, `Block::from_bytes`, `Block::as_header`, `calc_cksum`
--   Buffer        `Buf`, `Region`, `RegionMut`, `fill` and `fill_from_slices`; to a client it is a queue
--                 of bytes (`Queue`)
--   Slices        `Prefix`, `Suffix`, `split_at_index`, `split_at_byte_offset`, `take_prefix`,
--                 `TakeBytesLen`, `SkipBytesLen`, `IntoBuffersIter` (`Buffers`)
--   State         `State::next`, `take_marker`, `take_until`, `take_slices`
--   Archive       `Archive`, its constructors, and `Entry` with its checks
--   Read/Calls    `poll_next_state`, `poll_next_entry`, `poll_read_entry`, `poll_skip_entry`,
--                 `poll_fill_buf`, and the traits of `Entry` that call them
--   Read/Consume  `Archive::consume`
--   Read/Futures  `NextEntry` and `Entries`, `Archive::next_entry` and `Entry::skip`
--   Read/Drain    a client that reads an entry until it is given no bytes
--   Read/Archived a client that goes through an archive, and the bytes of an archive
--   Read/Pending  the awaited calls on a source that may be pending, against one that waits
--   Write/Calls   `poll_flush_buffered`, `poll_write_vectored`, `poll_write_data`, `poll_finish_entry`
--   Write/Entries `poll_write_entry`, `poll_write_header`, `poll_finish`, `poll_flush`, `add_entry`,
--                 `finish`
--   Write/Pending `add_entry` and `finish` on a sink that may be pending, against one that waits
--   Write/Archived a client that writes the entries of an archive and finishes it
--   Roundtrip     the two clients together
--   Prelude       names of the libraries, Boolean tests, and lemmas on lists
--   Tests         the theorems at concrete inputs
-- The other modules below a part hold what is proved of it.
--
-- A byte is a number, a slice or an `IoSlice` is the list of its bytes, and an iterator is the list of
-- what it still gives. The two regions of a buffer borrow it and a cursor of it: here a region has a
-- cursor of its own, which is put back into the buffer when the borrow ends. `usize` has 64 bits. A
-- subtraction below 0, an index out of range, a failed assertion and an `unwrap` of an error are panics,
-- as in a build with overflow checks; debug assertions are switched by a parameter. An entry borrows its
-- archive, so it is modelled by its header, and the archive is passed on.
--
-- The tar crate is a parameter: `Tar` has the readings of a header that the code calls. So are the
-- wrapped I/O objects, `AsyncRead` and `AsyncWrite`, whose polls may be ready, fail, be pending, or
-- panic, and change the object.
--
-- What is proved of a call against a source or a sink rests on what `AsyncRead` and `AsyncWrite`
-- document: the bytes that a poll gives are the next ones of the source, no more than there is room for,
-- and a sink takes first bytes of those that it is given. `Gives` (Read/Fill), `Sends` (Write/Flush)
-- allow every outcome of a poll. `Streams` (Read/Stream) is a source that is always ready and gives some
-- bytes if there are any, such as bytes in memory, as long as there is room for some blocks; `good` may
-- say more of the object that its polls keep. The theorems on headers say by it that whole blocks are
-- left at each poll: the code panics on a header that comes in pieces. `IsReadySink` (Write/Ready) is a
-- sink that is always ready. It does not support vectored writes, and takes some bytes of a slice at a
-- time; or it takes all that it is given, slices that are passed through included, as a vector of bytes.
-- A sink that supports vectored writes and takes a part of a header is left out: the code panics where
-- that part is zeros (Tests/Sends). An `await` is a number of polls. A buffer that is ready to be filled
-- (`IsReady`, Buffer/Room) is valid, reset when drained, and of a size that is a positive multiple of 512.
--
-- A source that may be pending is compared with one that waits (`blocking`, in Read/Pending/Source): it
-- polls the source until that is not pending. `Awaited` bounds how often a source can still be pending
-- by a number that goes down each time. `Trickles` is a source that is pending so often at most and is
-- else as `Streams` says; the one that waits is then one of `Streams`. A sink that may
-- be pending is compared in the same way (`blocking_sink`, in Write/Pending/Sink); `IsPatient` bounds how
-- often it is, and says that slices are not passed through to it.
--
-- Loops are recursion on fuel, whose end is the panic `no_fuel` that the code does not have.
-- `take_until` has ten rounds for each byte and ten more: no more than nine transitions pass before one
-- reads a byte. `poll_flush_buffered` has 2^64 rounds, since a round that goes on sends some of the
-- bytes, whose number is a `usize`. The loops on headers and padding have two or four times the size
-- of a block, since each round takes a byte or goes on to another state. `poll_skip_entry` has 2^64
-- rounds, since each but the last takes some of the data, whose size is a `u64`. `poll_finish` takes
-- its number of rounds as an argument, because a sink that accepts no bytes keeps its loop going. A
-- client of the reading calls has one round for each entry and one more, and in an entry one for each
-- byte and one more.
--
-- Not modelled: debug output and tracing, pinning, the wakers of the tasks, and the accessors for the path
-- of an entry, which only call the tar crate. Of the pointer casts only their checks are modelled.
pub mod Prelude
pub mod Io
pub mod Block
pub mod Buffer
pub mod Slices
pub mod State
pub mod Archive
pub mod Read
pub mod Write
pub mod Roundtrip
mod Tests
