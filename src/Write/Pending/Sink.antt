-- ===== src/Write/Pending/Sink.antt =====
-- A sink that may be pending, as one that waits until it is not.
use tario.Prelude.{ℕ, ◌≡◌, false, List}
use tario.Io.Waited.{Awaited, waited}
use tario.Write.Calls.{AsyncWrite}

-- How often a sink can still be pending is bounded, and slices are not passed through to it: the code goes
-- on when the sink is pending for the last part of them.
pub record IsPatient {W : Type 0} (sink : AsyncWrite W) (waits : W → ℕ) : Type 0 where
  pub writes : (bytes : List ℕ) (w : W) → Awaited waits (waits w) (sink.poll_write bytes w)
  pub flushes : (w : W) → Awaited waits (waits w) (sink.poll_flush w)
  pub shuts : (w : W) → Awaited waits (waits w) (sink.poll_shutdown w)
  pub narrow : (w : W) → sink.is_write_vectored w ≡ false

-- The sink that waits.
abbrev pub blocking_sink : {W : Type 0} → AsyncWrite W → (W → ℕ) → AsyncWrite W
blocking_sink sink waits = record {
  poll_write = λ bytes. waited waits (sink.poll_write bytes);
  poll_write_vectored = λ slices. waited waits (sink.poll_write_vectored slices);
  is_write_vectored = sink.is_write_vectored;
  poll_flush = waited waits sink.poll_flush;
  poll_shutdown = waited waits sink.poll_shutdown;
}
