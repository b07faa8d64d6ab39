-- ===== src/Read/Pending/Client.antt =====
-- The client of Read/Archived on a source that may be pending.
use tario.Prelude.{
  List, ℕ, Option, ◌≡◌, List, ℕ, Option, ◌≡◌, List, ℕ, Option, ◌≡◌, List, ℕ, Option, ◌≡◌, List, ℕ,
  Option, ◌≡◌, List, ℕ, Option, ◌≡◌, List, ℕ, Option, ◌≡◌, List, ℕ, Option, ◌≡◌, ℕ, zero, suc, ◌≤◌,
  ◌<◌, ◌≡◌, refl, sym, ◌∙◌, Option, List, [], ◌∷◌, ◌++◌, arith, if◌then◌else◌, is_empty,
}
use tario.Io.Waited.{Awaited}
use tario.Archive.Waits.{waits_in}
use mathlib.Core.Path.{subst}
use tario.Io.Poll.{Poll, Call, ◌>>=◌, done, awaits}
use tario.Io.Await.{IsDone, Agrees, bind-Agrees, Agrees-change, first-IsDone, awaits_once}
use tario.Block.{Tar}
use tario.Archive.{Archive, Entry}
use tario.Read.Calls.{AsyncRead, poll_next_entry, poll_skip_entry, poll_read}
use tario.Read.Futures.{next_entry, next_entry_poll, next_entry_poll-poll_next_entry, skip}
use tario.Read.Pending.Source.{blocking}
use tario.Read.Drain.{read_all}
use tario.Read.Pending.Awaits.{
  next_entry-poll_next_entry, skip-poll_skip_entry, awaits-poll_read, IsDone-Ended,
}

module _ {R : Type 0} (tar : Tar) (source : AsyncRead R) (waits : R → ℕ)
    (law : (room : ℕ) (r : R) → Awaited waits (waits r) (source.poll_read room r)) where
  abbrev waiting : AsyncRead R
  waiting = blocking source waits

  next_entry_once : (a : Archive R) → next_entry tar waiting 1 a ≡ poll_next_entry tar waiting a
  unfolding next_entry
  next_entry_once a =
      awaits_once (next_entry_poll tar waiting) a ∙ next_entry_poll-poll_next_entry tar waiting a

  skip_once : (e : Entry) (a : Archive R) → skip tar waiting 1 e a ≡ poll_skip_entry tar waiting e a
  unfolding skip
  skip_once e a = awaits_once (poll_skip_entry tar waiting e) a

  pub next_entry-Agrees :
      (polls : ℕ) (a : Archive R)
      → waits a.io < polls
      → IsDone (next_entry tar waiting 1 a)
      → Agrees
          (waits_in waits)
          (waits a.io)
          (next_entry tar source polls a)
          (next_entry tar waiting 1 a)
  next_entry-Agrees polls a enough is =
      subst
        (λ (t : Poll (Option Entry) × Archive R).
          Agrees (waits_in waits) (waits a.io) (next_entry tar source polls a) t)
        (sym (next_entry_once a))
        (next_entry-poll_next_entry tar source waits law polls a enough
          (subst IsDone (next_entry_once a) is))

  pub skip-Agrees :
      (polls : ℕ) (e : Entry) (a : Archive R)
      → waits a.io < polls
      → IsDone (skip tar waiting 1 e a)
      → Agrees (waits_in waits) (waits a.io) (skip tar source polls e a) (skip tar waiting 1 e a)
  skip-Agrees polls e a enough is =
      subst
        (λ (t : Poll (Unit {0}) × Archive R).
          Agrees (waits_in waits) (waits a.io) (skip tar source polls e a) t)
        (sym (skip_once e a))
        (skip-poll_skip_entry tar source waits law polls e a enough
          (IsDone-Ended (poll_skip_entry tar waiting e a) (subst IsDone (skip_once e a) is)))

  poll_read-Agrees :
      (polls : ℕ) (e : Entry) (room : ℕ) (a : Archive R)
      → waits a.io < polls
      → IsDone (awaits 1 (poll_read tar waiting e room) a)
      → Agrees
          (waits_in waits)
          (waits a.io)
          (awaits polls (poll_read tar source e room) a)
          (awaits 1 (poll_read tar waiting e room) a)
  poll_read-Agrees polls e room a enough is =
      let once = awaits_once (poll_read tar waiting e room) a in
      subst
        (λ (t : Poll (List ℕ) × Archive R).
          Agrees (waits_in waits) (waits a.io) (awaits polls (poll_read tar source e room) a) t)
        (sym once)
        (awaits-poll_read tar source waits law polls e room a enough
          (IsDone-Ended (poll_read tar waiting e room a) (subst IsDone once is)))

  -- What comes behind a read of `got`.
  abbrev after_read : Call (Archive R) (List ℕ) → List ℕ → Call (Archive R) (List ℕ)
  after_read later got = if is_empty got then done [] else (later >>= λ more. done (got ++ more))

  after_read-Agrees :
      (v : ℕ) (later later' : Call (Archive R) (List ℕ)) (got : List ℕ) (a : Archive R)
      → waits a.io ≤ v
      → IsDone (after_read later' got a)
      → (IsDone (later' a) → Agrees (waits_in waits) v (later a) (later' a))
      → Agrees (waits_in waits) v (after_read later got a) (after_read later' got a)
  after_read-Agrees v later later' [] a kept is agrees = (refl, kept)
  after_read-Agrees v later later' (x ∷ xs) a kept is agrees =
      bind-Agrees (waits_in waits) v (later a) (later' a) (λ more. done ((x ∷ xs) ++ more))
        (λ more. done ((x ∷ xs) ++ more)) is
        (agrees (first-IsDone (later' a) (λ more. done ((x ∷ xs) ++ more)) is))
        (λ more b kept' is'. (refl, kept'))

  pub read_all-Agrees :
      (polls : ℕ) (e : Entry) (room fuel : ℕ) (a : Archive R)
      → waits a.io < polls
      → IsDone (read_all tar waiting e room 1 fuel a)
      → Agrees
          (waits_in waits)
          (waits a.io)
          (read_all tar source e room polls fuel a)
          (read_all tar waiting e room 1 fuel a)
  unfolding read_all
  read_all-Agrees polls e room zero a enough never = absurd never
  read_all-Agrees polls e room (suc fuel) a enough is =
      let later = read_all tar source e room polls fuel in
      let later' = read_all tar waiting e room 1 fuel in
      let first = awaits 1 (poll_read tar waiting e room) a in
      bind-Agrees (waits_in waits) (waits a.io) (awaits polls (poll_read tar source e room) a) first
        (after_read later) (after_read later') is
        (poll_read-Agrees polls e room a enough (first-IsDone first (after_read later') is))
        (λ got b kept is'. after_read-Agrees (waits a.io) later later' got b kept is' (λ is''.
          Agrees-change (waits_in waits) (waits b.io) (waits a.io) kept
            (read_all-Agrees polls e room fuel b (omega arith) is'')))
