-- ===== src/Read/Pending/Awaits.antt =====
-- The calls of src/read/mod.rs awaited on a source that may be pending, against a source that waits.
use tario.Prelude.{
  ℕ, ◌<◌, ◌≡◌, refl, sym, ◌∙◌, ◌⊎◌, inl, inr, true, false, Option, none, arith, Bool-cases,
}
use tario.Io.Pends.{Meets-Pends}
use tario.Io.Waited.{Awaited}
use tario.Archive.Waits.{waits_in}
use mathlib.Core.Path.{subst}
use tario.Io.Poll.{awaits, Poll, ready, failed, pending, panicked}
use tario.Io.Await.{Agrees, Ended, Meets, IsDone, Meets-change, awaits-Meets}
use tario.Read.Pending.Skip.{poll_skip_entry-Meets, poll_read-Meets}
use tario.Read.Futures.{next_entry_poll-poll_next_entry, next_entry, next_entry_poll, skip}
use tario.Block.{Tar}
use tario.Archive.{Archive, Entry}
use tario.State.{is_terminal, received_eof}
use tario.Read.Calls.{poll_skip_entry, poll_read, AsyncRead, next_entry_loop, poll_next_entry}
use tario.Read.Pending.Source.{blocking}
use tario.Read.Pending.NextEntry.{next_entry_loop-Meets}
use tario.Read.Pending.Ends.{next_entry_loop-Pends, loop_ended}

pub IsDone-Ended : {S A : Type 0} (o : Poll A × S) → IsDone o → Ended o
IsDone-Ended (ready x, s) is = tt
IsDone-Ended (failed e, s) never = absurd never
IsDone-Ended (panicked p, s) never = absurd never
IsDone-Ended (pending, s) never = absurd never

next_entry_enters :
    {R : Type 0} (tar : Tar) (source : AsyncRead R) (a : Archive R)
    → is_terminal a.state ≡ false
    → poll_next_entry tar source a ≡ next_entry_loop tar source 2048 a
unfolding poll_next_entry
next_entry_enters tar source a going = rw going refl

next_entry_ended :
    {R : Type 0} (tar : Tar) (source : AsyncRead R) (a : Archive R)
    → is_terminal a.state ≡ true
    → poll_next_entry tar source a ≡ (ready none, a)
unfolding poll_next_entry
next_entry_ended tar source a ended = rw ended refl

module _ {R : Type 0} (tar : Tar) (source : AsyncRead R) (waits : R → ℕ)
    (law : (room : ℕ) (r : R) → Awaited waits (waits r) (source.poll_read room r)) where
  abbrev waiting : AsyncRead R
  waiting = blocking source waits

  next_entry_again :
      (a b : Archive R)
      → is_terminal a.state ≡ false
      → IsDone (poll_next_entry tar waiting a)
      → next_entry_loop tar waiting 2048 b ≡ next_entry_loop tar waiting 2048 a
      → (b.state ≡ received_eof) ⊎ (is_terminal b.state ≡ false)
      → poll_next_entry tar waiting b ≡ poll_next_entry tar waiting a
  next_entry_again a b going is same (inl ended) = absurd (
      loop_ended tar waiting 2047 b ended
        (subst IsDone (next_entry_enters tar waiting a going ∙ sym same) is))
  next_entry_again a b going is same (inr going') =
      next_entry_enters tar waiting b going' ∙ (same ∙ sym (next_entry_enters tar waiting a going))

  poll_next_entry-Meets :
      (a : Archive R)
      → IsDone (poll_next_entry tar waiting a)
      → Meets
          (waits_in waits)
          (waits a.io)
          (λ (b : Archive R). poll_next_entry tar waiting b ≡ poll_next_entry tar waiting a)
          (poll_next_entry tar source a)
          (poll_next_entry tar waiting a)
  poll_next_entry-Meets a is =
      let later =
        λ (b : Archive R). poll_next_entry tar waiting b ≡ poll_next_entry tar waiting a in
      elim (Bool-cases (is_terminal a.state)) [
        | inl z ↦
            subst
              (λ (o : Poll (Option Entry) × Archive R).
                Meets (waits_in waits) (waits a.io) later o (poll_next_entry tar waiting a))
              (sym (next_entry_ended tar source a z))
              (sym (next_entry_ended tar waiting a z), omega arith)
        | inr z ↦
            let enters = next_entry_enters tar waiting a z in
            let near = λ (b : Archive R).
              next_entry_loop tar waiting 2048 b ≡ next_entry_loop tar waiting 2048 a in
            subst
              (λ (o : Poll (Option Entry) × Archive R).
                Meets (waits_in waits) (waits a.io) later o (poll_next_entry tar waiting a))
              (sym (next_entry_enters tar source a z))
              (Meets-change (waits_in waits) (waits a.io) (waits a.io)
                (next_entry_loop tar source 2048 a) (next_entry_loop tar waiting 2048 a)
                (poll_next_entry tar waiting a) (omega arith) (sym enters) (λ b l. l)
                (Meets-Pends (waits_in waits) (waits a.io) {near = near} {later = later}
                  (next_entry_loop tar source 2048 a) (next_entry_loop tar waiting 2048 a)
                  (next_entry_loop-Pends tar source 2048 a (inr z))
                  (λ b same passed. next_entry_again a b z is same passed)
                  (next_entry_loop-Meets tar source waits law 2048 a
                    (subst Ended enters (IsDone-Ended (poll_next_entry tar waiting a) is)))))
      ]

  -- A `next_entry` that is awaited on a source that may be pending, less often than there are polls, comes
  -- to what `poll_next_entry` gives at once on the source that waits, the outcome and the archive, where
  -- that is an entry or the end of the archive. It leaves no more to wait for.
  pub next_entry-poll_next_entry :
      (polls : ℕ) (a : Archive R)
      → waits a.io < polls
      → IsDone (poll_next_entry tar waiting a)
      → Agrees
          (waits_in waits)
          (waits a.io)
          (next_entry tar source polls a)
          (poll_next_entry tar waiting a)
  unfolding next_entry
  next_entry-poll_next_entry polls a enough is =
      awaits-Meets (waits_in waits) (next_entry_poll tar source) (poll_next_entry tar waiting)
        IsDone
        (λ (b : Archive R) is'.
          subst
            (λ (o : Poll (Option Entry) × Archive R).
              Meets (waits_in waits) (waits b.io)
                (λ (c : Archive R). poll_next_entry tar waiting c ≡ poll_next_entry tar waiting b) o
                (poll_next_entry tar waiting b))
            (sym (next_entry_poll-poll_next_entry tar source b)) (poll_next_entry-Meets b is'))
        polls a is enough

  -- A `skip` that is awaited on a source that may be pending, less often than there are polls, comes to
  -- what `poll_skip_entry` gives at once on the source that waits, the outcome and the archive, errors and
  -- panics included, unless the model runs out of rounds. It leaves no more to wait for.
  pub skip-poll_skip_entry :
      (polls : ℕ) (e : Entry) (a : Archive R)
      → waits a.io < polls
      → Ended (poll_skip_entry tar waiting e a)
      → Agrees
          (waits_in waits)
          (waits a.io)
          (skip tar source polls e a)
          (poll_skip_entry tar waiting e a)
  unfolding skip
  skip-poll_skip_entry polls e a enough ends =
      awaits-Meets (waits_in waits) (poll_skip_entry tar source e) (poll_skip_entry tar waiting e)
        Ended (poll_skip_entry-Meets tar source waits law e) polls a ends enough

  -- A `poll_read` that is polled again while it is pending, on a source that is so less often than there
  -- are polls, comes to what it gives at once on the source that waits, the bytes and the archive, errors
  -- and panics included, unless the model runs out of rounds. It leaves no more to wait for.
  pub awaits-poll_read :
      (polls : ℕ) (e : Entry) (room : ℕ) (a : Archive R)
      → waits a.io < polls
      → Ended (poll_read tar waiting e room a)
      → Agrees
          (waits_in waits)
          (waits a.io)
          (awaits polls (poll_read tar source e room) a)
          (poll_read tar waiting e room a)
  awaits-poll_read polls e room a enough ends =
      awaits-Meets (waits_in waits) (poll_read tar source e room) (poll_read tar waiting e room)
        Ended (poll_read-Meets tar source waits law e room) polls a ends enough
