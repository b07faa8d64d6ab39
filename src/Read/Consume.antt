-- ===== src/Read/Consume.antt =====
-- `Archive::consume` of src/read/mod.rs: it advances over bytes of the buffer, and the state with it.
use tario.Prelude.{ℕ, Bool, true, false, not, ◌&&◌, Option, [], ◌∷◌, leb, ◌==◌, if◌then◌else◌}
use tario.Io.Result.{Result, ok, ◌>>=◌, ◌>>◌, assert, unwrap, slice_to, assertion}
use tario.Block.{Header, Tar}
use tario.Buffer.{
  Buf, Region, after_read, clear, commit, region_is_empty, remaining, region_bytes, buffered,
}
use tario.State.{
  State, receiving_header, received_header, receiving_data, received_data, aligning_data,
  aligned_data, receiving_eof, next, take_slices,
}
use tario.Archive.{Archive}

-- The states that `consume` does not stay in.
unfoldable pub passes_on : State → Bool
passes_on (receiving_header rem was_empty) = rem == 0 && not was_empty
passes_on received_header = true
passes_on (receiving_data rem) = rem == 0
passes_on received_data = true
passes_on (aligning_data rem) = rem == 0
passes_on aligned_data = true
passes_on (receiving_eof rem) = rem == 0
passes_on _ = false

-- The state that `consume` ends in when the bytes read have led to `s`.
unfoldable pub settle : Tar → State → Option Header → Result State
unfolding passes_on
settle tar s header = if passes_on s then unwrap (next tar s [] header) >>= (λ r. ok r.0) else ok s

-- The buffer once `amt` bytes of its region have been read: it is cleared when all is read.
unfoldable pub advance_buf : Buf → Region → ℕ → Result Buf
advance_buf b region amt = do
  region' ← commit region amt
  drained ← region_is_empty region'
  ok (if drained then clear (after_read b region') else after_read b region')

-- `Archive::consume`
unfoldable pub consume : {R : Type 0} → Tar → Archive R → ℕ → Option Header → Result (Archive R)
unfolding settle advance_buf
consume tar a amt header = do
  region ← buffered a.buf
  len ← remaining region
  assert (leb amt len) assertion
  bytes ← region_bytes region
  slice ← slice_to bytes amt
  (t, pos) ← unwrap (take_slices tar a.state (slice ∷ []) header)
  settled ← settle tar t header
  assert (pos == amt) assertion
  b ← advance_buf a.buf region amt
  ok (record a { buf = b; state = settled })
