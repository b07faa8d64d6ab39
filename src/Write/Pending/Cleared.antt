-- ===== src/Write/Pending/Cleared.antt =====
-- A flush of src/write/mod.rs that is ready has nothing to do when it is made again.
use tario.Prelude.{ℕ, suc, ◌-◌, ◌≡◌, refl, sym, ap, ◌∙◌, true, arith}
use tario.Io.Poll.{Poll, ready, failed, pending, panicked, pass, pass_of, modify}
use tario.Io.Result
use tario.Io.Result.{Result, ok}
use tario.Io.Pends.{Goes}
use tario.Block.{Tar}
use tario.Buffer.{Buf, buffered, region_is_empty, remaining, clear, usize_size}
use tario.Archive.{Archive}
use tario.State.{State}
use tario.Write.Calls.{AsyncWrite, flush_loop, poll_flush_buffered}
use tario.Write.Pending.Drain.{IsBefore, flush_loop-Goes}

-- The archive that a ready flush leaves: in its state, with a cleared buffer.
abbrev pub Leaves : {W : Type 0} → State → Poll (Unit {0}) × Archive W → Type 0
Leaves s (ready _, c) = (c.state ≡ s) × (c.buf.cap ≡ 0) × (c.buf.pos ≡ 0)
Leaves s (failed e, c) = Unit {0}
Leaves s (pending, c) = Unit {0}
Leaves s (panicked p, c) = Unit {0}

clears-Leaves :
    {W : Type 0} (a : Archive W) (o : Poll (Unit {0}) × Archive W)
    → Goes (IsBefore a) o
    → Leaves a.state (pass o (λ _. modify (λ (b : Archive W). record b { buf = clear b.buf })))
clears-Leaves a (ready x, c) (state, bytes, at) = (state, refl, refl)
clears-Leaves a (failed e, c) is = tt
clears-Leaves a (pending, c) is = tt
clears-Leaves a (panicked p, c) is = tt

cleared_same : (b : Buf) → b.cap ≡ 0 → b.pos ≡ 0 → clear b ≡ b
cleared_same b e e' =
    ap (λ (n : ℕ). record b { cap = n; pos = 0 }) (sym e)
    ∙ ap (λ (n : ℕ). record b { pos = n }) (sym e')

drained_at : (b : Buf) → b.cap ≡ 0 → b.pos ≡ 0 → Result.◌>>=◌ (buffered b) region_is_empty ≡ ok true
unfolding buffered region_is_empty remaining
drained_at b e e' = ground arith

module _ {W : Type 0} (tar : Tar) (sink : AsyncWrite W) where
  pub poll_flush_buffered-Leaves : (a : Archive W) → Leaves a.state (poll_flush_buffered tar sink a)
  unfolding poll_flush_buffered
  poll_flush_buffered-Leaves a =
      clears-Leaves a (flush_loop tar sink usize_size a)
        (flush_loop-Goes tar sink usize_size a a (refl, refl, refl))

  loop_drained :
      (fuel : ℕ) (a : Archive W)
      → a.buf.cap ≡ 0
      → a.buf.pos ≡ 0
      → flush_loop tar sink (suc fuel) a ≡ (ready tt, a)
  unfolding flush_loop
  loop_drained fuel a e e' = rw (drained_at a.buf e e') refl

  pub flush_cleared :
      (a : Archive W)
      → a.buf.cap ≡ 0
      → a.buf.pos ≡ 0
      → poll_flush_buffered tar sink a ≡ (ready tt, a)
  unfolding poll_flush_buffered
  flush_cleared a e e' =
      pass_of (λ _. modify (λ (b : Archive W). record b { buf = clear b.buf }))
        (loop_drained (usize_size - 1) a e e')
      ∙ ap (λ (b : Buf). (ready tt, record a { buf = b })) (cleared_same a.buf e e')
