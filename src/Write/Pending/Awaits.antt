-- ===== src/Write/Pending/Awaits.antt =====
-- `add_entry` and `finish` of src/write/mod.rs, awaited on a sink that may be pending.
use tario.Prelude.{ℕ, ◌<◌, ◌≡◌, refl, ap, Bool, arith}
use tario.Io.Poll.{Poll, ready, failed, pending, panicked, pass, pass_of, ◌>>◌, attempt}
use tario.Io.Result.{Result}
use tario.Io.Await.{Ended, Agrees, awaits-Meets}
use tario.Block.{Tar, Header}
use tario.Archive.{Archive, new_entry}
use tario.Archive.Waits.{waits_in}
use tario.Write.Calls.{AsyncWrite}
use tario.Write.Entries.{poll_write_header, add_entry, poll_finish, finish}
use tario.Write.Pending.Sink.{IsPatient, blocking_sink}
use tario.Write.Pending.Header.{poll_write_header-Meets}
use tario.Write.Pending.Finish.{poll_finish-Meets}

attempt_keeps : {S A B : Type 0} (r : Result B) (o : Poll A × S) → (pass o (λ _. attempt r)).1 ≡ o.1
attempt_keeps r (ready x, s) = refl
attempt_keeps r (failed e, s) = refl
attempt_keeps r (pending, s) = refl
attempt_keeps r (panicked p, s) = refl

module _ {W : Type 0} (tar : Tar) (sink : AsyncWrite W) (debug : Bool) (waits : W → ℕ)
    (law : IsPatient sink waits) where
  abbrev waiting : AsyncWrite W
  waiting = blocking_sink sink waits

  -- An `add_entry` that is awaited on a sink that may be pending, less often than there are polls, comes to
  -- what `poll_write_header` gives at once on the sink that waits, and the entry of the header behind it:
  -- the outcome and the archive, errors and panics included, unless the model runs out of rounds. Slices
  -- are not passed through to the sink. It leaves no more to wait for.
  pub add_entry-poll_write_header :
      (polls : ℕ) (h : Header) (a : Archive W)
      → waits a.io < polls
      → Ended (poll_write_header tar waiting debug h a)
      → Agrees
          (waits_in waits)
          (waits a.io)
          (add_entry tar sink debug polls h a)
          ((poll_write_header tar waiting debug h >> attempt (new_entry tar h)) a)
  unfolding add_entry
  add_entry-poll_write_header polls h a enough ends =
      let (same, kept) =
        awaits-Meets (waits_in waits) (poll_write_header tar sink debug h)
          (poll_write_header tar waiting debug h) Ended
          (poll_write_header-Meets tar sink debug waits law h) polls a ends enough in
      (
        pass_of (λ _. attempt (new_entry tar h)) same,
        omega (
          arith,
          ap (waits_in waits)
              (attempt_keeps (new_entry tar h) (poll_write_header tar waiting debug h a)),
        ),
      )

  -- A `finish` that is awaited on a sink that may be pending, less often than there are polls, comes to what
  -- `poll_finish` gives at once, in as many rounds, on the sink that waits: the outcome and the archive,
  -- errors and panics included, unless the model runs out of rounds. Slices are not passed through to the
  -- sink. It leaves no more to wait for.
  pub finish-poll_finish :
      (polls fuel : ℕ) (a : Archive W)
      → waits a.io < polls
      → Ended (poll_finish tar waiting debug fuel a)
      → Agrees
          (waits_in waits)
          (waits a.io)
          (finish tar sink debug polls fuel a)
          (poll_finish tar waiting debug fuel a)
  finish-poll_finish polls fuel a enough ends =
      awaits-Meets (waits_in waits) (poll_finish tar sink debug fuel)
        (poll_finish tar waiting debug fuel) Ended (poll_finish-Meets tar sink debug waits law fuel)
        polls a ends enough
