-- ===== src/Write/Pending/Drain.antt =====
-- The rounds of `poll_flush_buffered` of src/write/mod.rs, and what they leave of an archive.
use mathlib.Core.Path.{ap, sym, subst}
use tario.Io.Pends.{Goes, bind-Goes}
use tario.Buffer.{remaining, available, buffered, region_bytes, region_is_empty}
use tario.Write.Calls.{
  poll_flush_buffered, make_room, AsyncWrite, on_io, zero_write, commits_read, flush_round,
  flush_loop,
}
use tario.Io.Poll.{pass, ◌>>◌, done, fail, asks}
use tario.Io.Result
use tario.Io.Result.{Result, Result-cases, ok}
use tario.Io.Await.{Ended, grows_bind}
use tario.Prelude.{
  ℕ, zero, suc, ◌≡◌, refl, sym, ap, ◌∙◌, inl, inr, Bool, true, false, List, arith, ltb, ◌==◌,
  if◌then◌else◌,
}
use tario.Block.{Tar}
use tario.Archive.{Archive}

-- An archive as another, but for what of the buffer is sent.
abbrev pub IsBefore : {W : Type 0} → Archive W → Archive W → Type 0
IsBefore a b = (b.state ≡ a.state) × (b.buf.bytes ≡ a.buf.bytes) × (b.buf.cap ≡ a.buf.cap)

module _ {W : Type 0} (tar : Tar) (sink : AsyncWrite W) where
  pub round_at :
      (a : Archive W) {bytes : List ℕ}
      → Result.◌>>=◌ (buffered a.buf) region_bytes ≡ ok bytes
      → flush_round tar sink a
        ≡ pass
            (on_io tar sink (sink.poll_write bytes) a)
            (λ n. if n == 0 then fail (zero_write tar sink) else commits_read tar sink n)
  unfolding flush_round
  round_at a e = rw e

  pub loop_at :
      (a : Archive W) (fuel : ℕ)
      → Result.◌>>=◌ (buffered a.buf) region_is_empty ≡ ok false
      → flush_loop tar sink (suc fuel) a
        ≡ pass (flush_round tar sink a) (λ _. flush_loop tar sink fuel)
  unfolding flush_loop
  loop_at a fuel e = rw e

  round_keeps : (a : Archive W) → IsBefore a (flush_round tar sink a).1
  unfolding flush_round commits_read
  round_keeps a = (ground arith, ground arith, ground arith)

  drained_grows :
      (drained : Bool) (fuel : ℕ) (a : Archive W)
      → Ended ((if drained then done tt else (flush_round tar sink >> flush_loop tar sink fuel)) a)
      → ((b : Archive W)
          → Ended (flush_loop tar sink fuel b)
          → flush_loop tar sink (suc fuel) b ≡ flush_loop tar sink fuel b)
      → (if drained then done tt else (flush_round tar sink >> flush_loop tar sink (suc fuel))) a
        ≡ (if drained then done tt else (flush_round tar sink >> flush_loop tar sink fuel)) a
  drained_grows true fuel a ended grows = refl
  drained_grows false fuel a ended grows =
      grows_bind (flush_round tar sink a) (λ _. flush_loop tar sink fuel)
        (λ _. flush_loop tar sink (suc fuel)) ended (λ x. grows)

  pub flush_loop-grows :
      (fuel : ℕ) (a : Archive W)
      → Ended (flush_loop tar sink fuel a)
      → flush_loop tar sink (suc fuel) a ≡ flush_loop tar sink fuel a
  unfolding flush_loop
  flush_loop-grows zero a ended = absurd ended
  flush_loop-grows (suc fuel) a ended =
      grows_bind (asks (λ (b : Archive W). Result.◌>>=◌ (buffered b.buf) region_is_empty) a)
        (λ drained. if drained then done tt else (flush_round tar sink >> flush_loop tar sink fuel))
        (λ drained.
          if drained then done tt else (flush_round tar sink >> flush_loop tar sink (suc fuel)))
        ended (λ drained b ends. drained_grows drained fuel b ends (flush_loop-grows fuel))

  -- What a pending flush has sent is gone from the buffer, and nothing else has changed.
  IsBefore-IsBefore : (a b c : Archive W) → IsBefore a b → IsBefore b c → IsBefore a c
  IsBefore-IsBefore a b c (s, bytes, at) (s', bytes', at') = (s' ∙ s, bytes' ∙ bytes, at' ∙ at)

  pub flush_loop-Goes :
      (fuel : ℕ) (a b : Archive W) → IsBefore a b → Goes (IsBefore a) (flush_loop tar sink fuel b)
  unfolding flush_loop
  flush_loop-Goes zero a b is = tt
  flush_loop-Goes (suc fuel) a b is =
      elim (Result-cases (Result.◌>>=◌ (buffered b.buf) region_is_empty)) [
        | inl (true, e) ↦ rw e is
        | inl (false, e) ↦ subst (Goes (IsBefore a)) (sym (loop_at b fuel e)) (
            bind-Goes (IsBefore a) (flush_round tar sink b) (λ _. flush_loop tar sink fuel)
              (IsBefore-IsBefore a b (flush_round tar sink b).1 is (round_keeps b))
              (λ x c is'. flush_loop-Goes fuel a c is'))
        | inr (inl (x, e)) ↦ rw e tt
        | inr (inr (p, e)) ↦ rw e tt
      ]

pub remaining_at :
    {W : Type 0} (a b : Archive W)
    → IsBefore a b
    → remaining (available b.buf) ≡ remaining (available a.buf)
remaining_at a b (s, bytes, at) =
    ap (λ (xs : List ℕ). remaining (record { bytes = xs; cursor = b.buf.cap })) bytes
    ∙ ap (λ (n : ℕ). remaining (record { bytes = a.buf.bytes; cursor = n })) at

pub room_flushes :
    {W : Type 0} (tar : Tar) (sink : AsyncWrite W) (n : ℕ) (a : Archive W) {room : ℕ}
    → remaining (available a.buf) ≡ ok room
    → ltb room n ≡ true
    → make_room tar sink n false a ≡ poll_flush_buffered tar sink a
unfolding make_room
room_flushes tar sink n a e z = rw (e, z)
