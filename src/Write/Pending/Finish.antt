-- ===== src/Write/Pending/Finish.antt =====
-- `poll_finish` of src/write/mod.rs, made again after it was pending.
use tario.Io.Poll.{Call, ◌>>=◌, ◌>>◌, attempt, Poll, pass, pass_of, ready, failed, panicked}
use tario.Io.Result.{slice_to, Result-cases}
use tario.Io.Await.{Ended, Meets, Stays, bind-Meets, first-Ended, Meets-change}
use tario.Block.{Tar, empty_block}
use tario.Archive.{Archive}
use tario.State.{
  State, expecting_header, receiving_header, received_header, receiving_data, received_data,
  aligning_data, aligned_data, receiving_eof, received_eof,
}
use tario.Write.Calls.{AsyncWrite, poll_write_data, on_io, poll_flush_buffered}
use tario.Write.Entries.{on_finish, poll_finish}
use tario.Prelude.{
  ℕ, zero, suc, ◌≡◌, refl, sym, ap, ◌∙◌, inl, inr, Bool, true, false, none, List, arith,
}
use mathlib.Core.Path.{subst}
use tario.Io.Waited.{waited}
use tario.Archive.Waits.{waits_in, on_io-Meets}
use tario.Write.Pending.Sink.{IsPatient, blocking_sink}
use tario.Write.Pending.Flush.{poll_flush_buffered-Meets}
use tario.Write.Pending.Round.{local-Meets, write_then-Meets}
use tario.Write.Pending.Cleared.{Leaves, poll_flush_buffered-Leaves, flush_cleared}
use tario.Write.Pending.Grows.{finish_at, poll_finish-grows}

module _ {W : Type 0} (tar : Tar) (sink : AsyncWrite W) (debug : Bool) (waits : W → ℕ)
    (law : IsPatient sink waits) where
  abbrev waiting : AsyncWrite W
  waiting = blocking_sink sink waits

  abbrev LoopMeets : ℕ → Archive W → Type 0
  LoopMeets fuel a =
      Meets (waits_in waits) (waits a.io)
        (λ (b : Archive W).
          poll_finish tar waiting debug fuel b ≡ poll_finish tar waiting debug fuel a)
        (poll_finish tar sink debug fuel a) (poll_finish tar waiting debug fuel a)

  -- A round in a state in which nothing is written.
  finish_local :
      (fuel : ℕ) (a : Archive W) (s : State) (r : Poll (Unit {0}) × Archive W)
      → a.state ≡ s
      → on_finish tar sink debug (poll_finish tar sink debug fuel) s a ≡ r
      → on_finish tar waiting debug (poll_finish tar waiting debug fuel) s a ≡ r
      → Stays (waits_in waits) (waits a.io) r
      → LoopMeets (suc fuel) a
  finish_local fuel a s r e same same' stays =
      local-Meets tar sink waits (waits a.io)
        (λ (b : Archive W).
          poll_finish tar waiting debug (suc fuel) b ≡ poll_finish tar waiting debug (suc fuel) a)
        (poll_finish tar sink debug (suc fuel) a) (poll_finish tar waiting debug (suc fuel) a) r
        (finish_at tar sink debug fuel a e ∙ same) (finish_at tar waiting debug fuel a e ∙ same')
        stays

  -- A round that writes the block, or what is missing of it.
  finish_writes :
      (fuel : ℕ) (a : Archive W) (s : State) (buf : List ℕ)
      → a.state ≡ s
      → ((b : Archive W) → Ended (poll_finish tar waiting debug fuel b) → LoopMeets fuel b)
      → on_finish tar sink debug (poll_finish tar sink debug fuel) s a
        ≡ pass (poll_write_data tar sink buf none a) (λ _. poll_finish tar sink debug fuel)
      → ((b : Archive W)
          → on_finish tar waiting debug (poll_finish tar waiting debug fuel) s b
            ≡ pass
                (poll_write_data tar waiting buf none b)
                (λ _. poll_finish tar waiting debug fuel))
      → Ended (poll_finish tar waiting debug (suc fuel) a)
      → LoopMeets (suc fuel) a
  finish_writes fuel a s buf e resumes here there ended =
      let whole = poll_finish tar waiting debug (suc fuel) in
      subst
        (λ (o : Poll (Unit {0}) × Archive W).
          Meets (waits_in waits) (waits a.io) (λ (b : Archive W). whole b ≡ whole a) o (whole a))
        (sym (finish_at tar sink debug fuel a e ∙ here))
        (write_then-Meets tar sink waits law (poll_finish tar sink debug fuel)
          (poll_finish tar waiting debug fuel) whole (λ n. false) a buf none resumes
          (poll_finish-grows tar waiting debug fuel)
          (λ b same. finish_at tar waiting debug fuel b (same ∙ e) ∙ there b) ended)

  -- A round that writes what is missing of a block.
  finish_cut :
      (fuel : ℕ) (a : Archive W) (s : State) (rem : ℕ)
      → a.state ≡ s
      → ((b : Archive W) → Ended (poll_finish tar waiting debug fuel b) → LoopMeets fuel b)
      → on_finish tar sink debug (poll_finish tar sink debug fuel) s ≡ (
          attempt (slice_to empty_block rem)
          >>= (λ buf. poll_write_data tar sink buf none >> poll_finish tar sink debug fuel))
      → on_finish tar waiting debug (poll_finish tar waiting debug fuel) s ≡ (
          attempt (slice_to empty_block rem)
          >>= (λ buf. poll_write_data tar waiting buf none >> poll_finish tar waiting debug fuel))
      → Ended (poll_finish tar waiting debug (suc fuel) a)
      → LoopMeets (suc fuel) a
  finish_cut fuel a s rem e resumes here there ended =
      elim (Result-cases (slice_to empty_block rem)) [
        | inl (buf, e1) ↦
            finish_writes fuel a s buf e resumes (rw (here, e1) refl) (λ b. rw (there, e1) refl)
              ended
        | inr (inl (x, e1)) ↦
            finish_local fuel a s (failed x, a) e (rw (here, e1) refl) (rw (there, e1) refl)
              (omega arith)
        | inr (inr (x, e1)) ↦
            finish_local fuel a s (panicked x, a) e (rw (here, e1) refl) (rw (there, e1) refl)
              (omega arith)
      ]

  abbrev last : Archive W → Poll (Unit {0}) × Archive W
  last a = pass (poll_flush_buffered tar waiting a) (λ _. on_io tar waiting waiting.poll_shutdown)

  -- The last round made again after the sink was pending in its shutdown: nothing is left to flush.
  last_again :
      (a c : Archive W) (io : W)
      → Leaves a.state (ready tt, c)
      → waited waits sink.poll_shutdown io ≡ waited waits sink.poll_shutdown c.io
      → last (record c { io = io }) ≡ on_io tar waiting waiting.poll_shutdown c
  last_again a c io (state, at, from) same =
      pass_of (λ _. on_io tar waiting waiting.poll_shutdown)
        (flush_cleared tar waiting (record c { io = io }) at from)
      ∙ ap (λ (o : Poll (Unit {0}) × W). (o.0, record c { io = o.1 })) same

  finish_last :
      (fuel : ℕ) (a : Archive W)
      → a.state ≡ received_eof
      → Ended (poll_finish tar waiting debug (suc fuel) a)
      → LoopMeets (suc fuel) a
  unfolding on_finish
  finish_last fuel a e ended =
      let whole = poll_finish tar waiting debug (suc fuel) in
      let flushes = poll_flush_buffered tar waiting a in
      let shuts : Unit {0} → Call (Archive W) (Unit {0}) =
        λ _. on_io tar waiting waiting.poll_shutdown in
      let later = λ (b : Archive W). whole b ≡ whole a in
      let here : whole a ≡ last a = finish_at tar waiting debug fuel a e in
      subst
        (λ (o : Poll (Unit {0}) × Archive W). Meets (waits_in waits) (waits a.io) later o (whole a))
        (sym (finish_at tar sink debug fuel a e))
        (subst
          (λ (t : Poll (Unit {0}) × Archive W).
            Meets (waits_in waits) (waits a.io) later
              (pass (poll_flush_buffered tar sink a) (λ _. on_io tar sink sink.poll_shutdown)) t)
          (sym here)
          (bind-Meets (waits_in waits) (waits a.io) {later = later} (poll_flush_buffered tar sink a)
            flushes (λ _. on_io tar sink sink.poll_shutdown) shuts
            (poll_flush_buffered-Meets tar sink waits law a
              (first-Ended flushes shuts (subst Ended here ended)))
            (λ b (same, before).
              finish_at tar waiting debug fuel b (before.0 ∙ e) ∙ (pass_of shuts same ∙ sym here))
            (λ x c same kept.
              let left : Leaves a.state (ready tt, c) =
                subst (Leaves a.state) (sym same) (poll_flush_buffered-Leaves tar waiting a) in
              Meets-change (waits_in waits) (waits a.io) (waits c.io)
                (on_io tar sink sink.poll_shutdown c) (on_io tar waiting waiting.poll_shutdown c)
                (on_io tar waiting waiting.poll_shutdown c) kept refl
                (λ d (io, at_io, resumed).
                  finish_at tar waiting debug fuel d
                    (ap (λ (b : Archive W). b.state) at_io ∙ (left.0 ∙ e))
                  ∙ (ap last at_io
                      ∙ (last_again a c io left resumed ∙ (pass_of shuts same ∙ sym here))))
                (on_io-Meets waits sink.poll_shutdown law.shuts c))))

  finish_round :
      (fuel : ℕ) (a : Archive W) (s : State)
      → a.state ≡ s
      → ((b : Archive W) → Ended (poll_finish tar waiting debug fuel b) → LoopMeets fuel b)
      → Ended (poll_finish tar waiting debug (suc fuel) a)
      → LoopMeets (suc fuel) a
  unfolding on_finish
  finish_round fuel a expecting_header e resumes ended =
      finish_writes fuel a expecting_header empty_block e resumes refl (λ b. refl) ended
  finish_round fuel a (receiving_header rem true) e resumes ended =
      finish_cut fuel a (receiving_header rem true) rem e resumes refl refl ended
  finish_round fuel a (receiving_eof rem) e resumes ended =
      finish_cut fuel a (receiving_eof rem) rem e resumes refl refl ended
  finish_round fuel a received_eof e resumes ended = finish_last fuel a e ended
  finish_round fuel a (receiving_header rem false) e resumes ended =
      finish_local fuel a (receiving_header rem false) _ e refl refl (omega arith)
  finish_round fuel a received_header e resumes ended =
      finish_local fuel a received_header _ e refl refl (omega arith)
  finish_round fuel a (receiving_data n) e resumes ended =
      finish_local fuel a (receiving_data n) _ e refl refl (omega arith)
  finish_round fuel a received_data e resumes ended =
      finish_local fuel a received_data _ e refl refl (omega arith)
  finish_round fuel a (aligning_data n) e resumes ended =
      finish_local fuel a (aligning_data n) _ e refl refl (omega arith)
  finish_round fuel a aligned_data e resumes ended =
      finish_local fuel a aligned_data _ e refl refl (omega arith)

  pub poll_finish-Meets :
      (fuel : ℕ) (a : Archive W) → Ended (poll_finish tar waiting debug fuel a) → LoopMeets fuel a
  unfolding poll_finish
  poll_finish-Meets zero a ended = absurd ended
  poll_finish-Meets (suc fuel) a ended =
      finish_round fuel a a.state refl (poll_finish-Meets fuel) ended
