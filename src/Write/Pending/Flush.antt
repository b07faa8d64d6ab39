-- ===== src/Write/Pending/Flush.antt =====
-- `poll_flush_buffered` and the room for a write, of src/write/mod.rs, made again after they were pending.
use mathlib.Core.Path.{ap, sym, subst}
use tario.Io.Pends.{Goes-Pends, Meets-Pends}
use tario.Io.Await.{
  next-Meets, first-Ended, Meets-change, Ended, Meets, Stays, here-Meets, bind-Meets,
}
use tario.Io.Poll.{modify, Poll, Call, pass, pass_of, fail}
use tario.Buffer.{
  remaining, available, clear, usize_size, Buf, buffered, region_bytes, region_is_empty,
}
use tario.Write.Calls.{
  poll_flush_buffered, make_room, AsyncWrite, on_io, zero_write, commits_read, flush_round,
  flush_loop,
}
use tario.Io.Result
use tario.Io.Result.{Result, Result-cases, ok}
use tario.Archive.Waits.{waits_in, on_io-Meets}
use tario.Write.Pending.Sink.{IsPatient, blocking_sink}
use tario.Prelude.{
  ℕ, zero, suc, ◌≤◌, ◌≡◌, refl, sym, ap, ◌∙◌, inl, inr, true, false, arith, ltb, ◌==◌,
  if◌then◌else◌, Bool-cases,
}
use tario.Block.{Tar}
use tario.Archive.{Archive}
use tario.Write.Pending.Drain.{
  IsBefore, round_at, loop_at, flush_loop-grows, flush_loop-Goes, remaining_at, room_flushes,
}

module _ {W : Type 0} (tar : Tar) (sink : AsyncWrite W) (waits : W → ℕ)
    (law : IsPatient sink waits) where
  abbrev waiting : AsyncWrite W
  waiting = blocking_sink sink waits

  -- What a round does with the number of bytes that were sent.
  abbrev sends : ℕ → Call (Archive W) (Unit {0})
  sends n = if n == 0 then fail (zero_write tar sink) else commits_read tar sink n

  sends-Stays : (a : Archive W) (v n : ℕ) → waits a.io ≤ v → Stays (waits_in waits) v (sends n a)
  unfolding commits_read
  sends-Stays a v n kept = ground arith

  flush_round-Meets :
      (a : Archive W)
      → Meets
          (waits_in waits)
          (waits a.io)
          (λ (b : Archive W).
            (b.buf ≡ a.buf) × (flush_round tar waiting b ≡ flush_round tar waiting a))
          (flush_round tar sink a)
          (flush_round tar waiting a)
  unfolding flush_round commits_read
  flush_round-Meets a = elim (Result-cases (Result.◌>>=◌ (buffered a.buf) region_bytes)) [
    | inl (bytes, e) ↦
        let call = sink.poll_write bytes in
        let later = λ (b : Archive W).
          (b.buf ≡ a.buf)
          × (flush_round tar waiting b
              ≡ pass (on_io tar waiting (waiting.poll_write bytes) a) sends) in
        rw e (
          bind-Meets (waits_in waits) (waits a.io) {later = later} (on_io tar sink call a)
            (on_io tar waiting (waiting.poll_write bytes) a) sends sends
            (on_io-Meets waits call (law.writes bytes) a)
            (λ b (io, at_io, same). (
              ap (λ (c : Archive W). c.buf) at_io,
              ap (flush_round tar waiting) at_io
                  ∙ (round_at tar waiting (record a { io = io }) e
                      ∙ ap (λ (o : Poll ℕ × W). pass (o.0, record a { io = o.1 }) sends) same),
            ))
            (λ n b same kept.
              here-Meets (waits_in waits) (waits a.io) later (sends n b) (sends n b)
                (sends-Stays b (waits a.io) n kept) refl))
    | inr (inl (x, e)) ↦ rw e (refl, omega arith)
    | inr (inr (p, e)) ↦ rw e (refl, omega arith)
  ]

  -- A round that sends some of the bytes, and the rounds behind it.
  flush_more :
      (fuel : ℕ) (a : Archive W)
      → Result.◌>>=◌ (buffered a.buf) region_is_empty ≡ ok false
      → Ended (flush_loop tar waiting (suc fuel) a)
      → ((b : Archive W)
          → Ended (flush_loop tar waiting fuel b)
          → Meets
              (waits_in waits)
              (waits b.io)
              (λ (c : Archive W). flush_loop tar waiting fuel c ≡ flush_loop tar waiting fuel b)
              (flush_loop tar sink fuel b)
              (flush_loop tar waiting fuel b))
      → Meets
          (waits_in waits)
          (waits a.io)
          (λ (b : Archive W).
            flush_loop tar waiting (suc fuel) b ≡ flush_loop tar waiting (suc fuel) a)
          (flush_loop tar sink (suc fuel) a)
          (flush_loop tar waiting (suc fuel) a)
  flush_more fuel a e ended resumes =
      let again = flush_loop tar sink fuel in
      let waited = flush_loop tar waiting fuel in
      let whole = flush_loop tar waiting (suc fuel) in
      let at = loop_at tar waiting a fuel e in
      let later = λ (b : Archive W). whole b ≡ whole a in
      subst
        (λ (o : Poll (Unit {0}) × Archive W). Meets (waits_in waits) (waits a.io) later o (whole a))
        (sym (loop_at tar sink a fuel e))
        (subst
          (λ (t : Poll (Unit {0}) × Archive W).
            Meets (waits_in waits) (waits a.io) later (pass (flush_round tar sink a) (λ _. again))
              t)
          (sym at)
          (bind-Meets (waits_in waits) (waits a.io) {later = later} (flush_round tar sink a)
            (flush_round tar waiting a) (λ _. again) (λ _. waited) (flush_round-Meets a)
            (λ b (same_buf, same).
              loop_at tar waiting b fuel
                (ap (λ (c : Buf). Result.◌>>=◌ (buffered c) region_is_empty) same_buf ∙ e)
              ∙ (pass_of (λ _. waited) same ∙ sym at))
            (λ x c same kept.
              next-Meets (waits_in waits) (waits a.io) again waited whole (whole a) resumes
                (flush_loop-grows tar waiting fuel) c (pass_of (λ _. waited) same ∙ sym at) ended
                kept)))

  flush_loop-Meets :
      (fuel : ℕ) (a : Archive W)
      → Ended (flush_loop tar waiting fuel a)
      → Meets
          (waits_in waits)
          (waits a.io)
          (λ (b : Archive W). flush_loop tar waiting fuel b ≡ flush_loop tar waiting fuel a)
          (flush_loop tar sink fuel a)
          (flush_loop tar waiting fuel a)
  unfolding flush_loop
  flush_loop-Meets zero a ended = absurd ended
  flush_loop-Meets (suc fuel) a ended =
      elim (Result-cases (Result.◌>>=◌ (buffered a.buf) region_is_empty)) [
        | inl (true, e) ↦ rw e (refl, omega arith)
        | inl (false, e) ↦ flush_more fuel a e ended (flush_loop-Meets fuel)
        | inr (inl (x, e)) ↦ rw e (refl, omega arith)
        | inr (inr (p, e)) ↦ rw e (refl, omega arith)
      ]

  -- A flush that is pending is made again from there.
  pub poll_flush_buffered-Meets :
      (a : Archive W)
      → Ended (poll_flush_buffered tar waiting a)
      → Meets
          (waits_in waits)
          (waits a.io)
          (λ (b : Archive W).
            (poll_flush_buffered tar waiting b ≡ poll_flush_buffered tar waiting a) × IsBefore a b)
          (poll_flush_buffered tar sink a)
          (poll_flush_buffered tar waiting a)
  unfolding poll_flush_buffered
  poll_flush_buffered-Meets a ended =
      let clears : Unit {0} → Call (Archive W) (Unit {0}) =
        λ _. modify (λ (b : Archive W). record b { buf = clear b.buf }) in
      let near = λ (b : Archive W).
        flush_loop tar waiting usize_size b ≡ flush_loop tar waiting usize_size a in
      let both = λ (b : Archive W). near b × IsBefore a b in
      let first = flush_loop tar waiting usize_size a in
      bind-Meets (waits_in waits) (waits a.io) {near = both} (flush_loop tar sink usize_size a)
        first clears clears
        (Meets-Pends (waits_in waits) (waits a.io) {near = near} {later = both} {P = IsBefore a}
          (flush_loop tar sink usize_size a) first
          (Goes-Pends (IsBefore a) (flush_loop tar sink usize_size a)
            (flush_loop-Goes tar sink usize_size a a (refl, refl, refl)))
          (λ b same is. (same, is))
          (flush_loop-Meets usize_size a (first-Ended first clears ended)))
        (λ b (same, is). (pass_of clears same, is)) (λ x b same kept. (refl, kept))

  pub make_room-Meets :
      (n : ℕ) (a : Archive W)
      → Ended (make_room tar waiting n false a)
      → Meets
          (waits_in waits)
          (waits a.io)
          (λ (b : Archive W).
            (make_room tar waiting n false b ≡ make_room tar waiting n false a) × IsBefore a b)
          (make_room tar sink n false a)
          (make_room tar waiting n false a)
  unfolding make_room
  make_room-Meets n a ended = elim (Result-cases (remaining (available a.buf))) [
    | inl (room, e) ↦ elim (Bool-cases (ltb room n)) [
      | inl z ↦
          let flushes = room_flushes tar waiting n a e z in
          let later = λ (b : Archive W).
            (make_room tar waiting n false b ≡ make_room tar waiting n false a) × IsBefore a b in
          subst
            (λ (o : Poll (Unit {0}) × Archive W).
              Meets (waits_in waits) (waits a.io) later o (make_room tar waiting n false a))
            (sym (room_flushes tar sink n a e z))
            (Meets-change (waits_in waits) (waits a.io) (waits a.io)
              (poll_flush_buffered tar sink a) (poll_flush_buffered tar waiting a)
              (make_room tar waiting n false a) (omega arith) (sym flushes)
              (λ b (same, is). (
                room_flushes tar waiting n b (remaining_at a b is ∙ e) z ∙ (same ∙ sym flushes),
                is,
              ))
              (poll_flush_buffered-Meets a (subst Ended flushes ended)))
      | inr z ↦ rw (e, z) (refl, omega arith)
    ]
    | inr (inl (x, e)) ↦ rw e (refl, omega arith)
    | inr (inr (p, e)) ↦ rw e (refl, omega arith)
  ]
