-- ===== src/Read/Pending/Whole.antt =====
-- Reading a whole archive with the methods of src/read/mod.rs from a source that may be pending.
use tario.Prelude.{
  ℕ, zero, suc, ◌%◌, ◌≤◌, ◌<◌, ◌≡◌, refl, sym, Bool, true, false, Option, none, some, List, [], ◌∷◌,
  arith, if◌then◌else◌, length,
}
use tario.Io.Waited.{Awaited}
use tario.Archive.Waits.{waits_in}
use mathlib.Core.Path.{subst}
use tario.State.{State, received_eof}
use tario.Read.Whole.{AllStored, read_archive-Ends}
use tario.Read.Starts.{AtHeader}
use tario.Read.Stream.{stream}
use tario.Buffer.Room.{IsReady}
use tario.Block.{block_size, Header, Tar}
use tario.Read.Entries.{Ends}
use tario.Read.Pending.Source.{Trickles, blocking-Streams, blocking}
use tario.Read.Archived.{Stored, layout, end_blocks, all_shown, visit, read_archive}
use tario.Io.Poll.{Poll, Call, ◌>>=◌, ◌>>◌, done}
use tario.Io.Await.{IsDone, Agrees, bind-Agrees, Agrees-change, first-IsDone}
use tario.Archive.{Archive, Entry}
use tario.Read.Calls.{AsyncRead}
use tario.Read.Futures.{next_entry, skip}
use tario.Read.Drain.{read_all}
use tario.Read.Pending.Client.{next_entry-Agrees, skip-Agrees, read_all-Agrees}

module _ {R : Type 0} (tar : Tar) (source : AsyncRead R) (waits : R → ℕ)
    (law : (room : ℕ) (r : R) → Awaited waits (waits r) (source.poll_read room r))
    (wants : Header → Bool) (room limit polls : ℕ) where
  abbrev waiting : AsyncRead R
  waiting = blocking source waits

  wanted-Agrees :
      (wanted : Bool) (e : Entry) (a : Archive R)
      → waits a.io < polls
      → IsDone (
          (if wanted
              then read_all tar waiting e room 1 limit
              else (skip tar waiting 1 e >> done []))
            a)
      → Agrees
          (waits_in waits)
          (waits a.io)
          ((if wanted
              then read_all tar source e room polls limit
              else (skip tar source polls e >> done []))
            a)
          ((if wanted
              then read_all tar waiting e room 1 limit
              else (skip tar waiting 1 e >> done []))
            a)
  wanted-Agrees true e a enough is =
      read_all-Agrees tar source waits law polls e room limit a enough is
  wanted-Agrees false e a enough is =
      bind-Agrees (waits_in waits) (waits a.io) (skip tar source polls e a) (skip tar waiting 1 e a)
        (λ _. done []) (λ _. done []) is
        (skip-Agrees tar source waits law polls e a enough
          (first-IsDone (skip tar waiting 1 e a) (λ _. done {A = List ℕ} []) is))
        (λ x b kept is'. (refl, kept))

  visit-Agrees :
      (e : Entry) (a : Archive R)
      → waits a.io < polls
      → IsDone (visit tar waiting wants room limit 1 e a)
      → Agrees
          (waits_in waits)
          (waits a.io)
          (visit tar source wants room limit polls e a)
          (visit tar waiting wants room limit 1 e a)
  unfolding visit
  visit-Agrees e a enough is = wanted-Agrees (wants e) e a enough is

  abbrev Shown : Type 0
  Shown = List (Header × List ℕ)

  -- What comes behind an entry that was found.
  abbrev visits :
      (Entry → Call (Archive R) (List ℕ))
      → Call (Archive R) Shown
      → Option Entry
      → Call (Archive R) Shown
  visits visited later none = done []
  visits visited later (some e) = do body ← visited e; others ← later; done ((e, body) ∷ others)

  visits-Agrees :
      (v : ℕ) (later later' : Call (Archive R) Shown) (found : Option Entry) (a : Archive R)
      → waits a.io ≤ v
      → v < polls
      → IsDone (visits (visit tar waiting wants room limit 1) later' found a)
      → ((b : Archive R)
          → waits b.io ≤ v
          → IsDone (later' b)
          → Agrees (waits_in waits) (waits b.io) (later b) (later' b))
      → Agrees
          (waits_in waits)
          v
          (visits (visit tar source wants room limit polls) later found a)
          (visits (visit tar waiting wants room limit 1) later' found a)
  visits-Agrees v later later' none a kept enough is agrees = (refl, kept)
  visits-Agrees v later later' (some e) a kept enough is agrees =
      let on : Call (Archive R) Shown → List ℕ → Call (Archive R) Shown =
        λ rest body. rest >>= (λ others. done ((e, body) ∷ others)) in
      let first = visit tar waiting wants room limit 1 e a in
      bind-Agrees (waits_in waits) v (visit tar source wants room limit polls e a) first (on later)
        (on later') is
        (Agrees-change (waits_in waits) (waits a.io) v kept
          (visit-Agrees e a (omega arith) (first-IsDone first (on later') is)))
        (λ body b kept' is'.
          bind-Agrees (waits_in waits) v (later b) (later' b) (λ others. done ((e, body) ∷ others))
            (λ others. done ((e, body) ∷ others)) is'
            (Agrees-change (waits_in waits) (waits b.io) v kept'
              (agrees b kept' (first-IsDone (later' b) (λ others. done ((e, body) ∷ others)) is')))
            (λ others c kept'' is''. (refl, kept'')))

  -- A client that awaits each call of a source that may be pending, and is so less often than there are
  -- polls, comes to what it comes to at one poll of the source that waits.
  read_archive-Agrees :
      (fuel : ℕ) (a : Archive R)
      → waits a.io < polls
      → IsDone (read_archive tar waiting wants room limit 1 fuel a)
      → Agrees
          (waits_in waits)
          (waits a.io)
          (read_archive tar source wants room limit polls fuel a)
          (read_archive tar waiting wants room limit 1 fuel a)
  unfolding read_archive
  read_archive-Agrees zero a enough never = absurd never
  read_archive-Agrees (suc fuel) a enough is =
      let later = read_archive tar source wants room limit polls fuel in
      let later' = read_archive tar waiting wants room limit 1 fuel in
      let on = visits (visit tar source wants room limit polls) later in
      let on' = visits (visit tar waiting wants room limit 1) later' in
      let first = next_entry tar waiting 1 a in
      bind-Agrees (waits_in waits) (waits a.io) (next_entry tar source polls a) first on on' is
        (next_entry-Agrees tar source waits law polls a enough (first-IsDone first on' is))
        (λ found b kept is'.
          visits-Agrees (waits a.io) later later' found b kept enough is'
            (λ c less is''. read_archive-Agrees fuel c (omega arith) is''))

pub Ends-IsDone :
    {R A : Type 0} {left : R → List ℕ} {good : R → Type 0} {x : A} {s : State} {rest : List ℕ}
    (o : Poll A × Archive R)
    → Ends left good x s rest o
    → IsDone o
Ends-IsDone o (b, io, same, r, g, view) = subst IsDone (sym same) tt

-- A client awaits `next_entry` until it gives none, and with each entry either awaits reads until it is
-- given no bytes, with room for some bytes each time, or awaits `skip`. On the bytes of an archive, that
-- are any entries followed by two empty blocks, from any state before a header, it is given exactly the
-- headers in order, each with all of its data where it reads them, and ends behind the empty blocks,
-- however often the source is pending, and wherever in the calls: less often in all than there are polls
-- for each call. Else the source is ready, read by whole blocks, in pieces of any such size, and the
-- buffer is of whole blocks and ready to be filled. The headers are accepted and state the size of the
-- data, of at most 2^64 - 512; the entries that are skipped hold data; there are enough rounds for the
-- entries and for the reads of each.
pub read_archive-Trickles :
    {R : Type 0} (tar : Tar) (source : AsyncRead R) (wants : Header → Bool) (room limit polls : ℕ)
    (left : R → List ℕ) (good : R → Type 0) (waits : R → ℕ) (law : Trickles source left good waits)
    (blocks : (r : R) → good r → length (left r) % block_size ≡ 0) (fuel : ℕ) (a : Archive R)
    (files : List Stored) (rest : List ℕ)
    → 0 < room
    → AllStored tar wants limit files
    → IsReady a.buf
    → good a.io
    → AtHeader a.state
    → stream left a ≡ layout files (end_blocks rest)
    → length rest % block_size ≡ 0
    → length files < fuel
    → waits a.io < polls
    → Ends left good
        (all_shown wants files)
        received_eof
        rest
        (read_archive tar source wants room limit polls fuel a)
read_archive-Trickles tar source wants room limit polls left good waits law blocks fuel a files rest
      some_room all r g s whole even rounds enough =
    let object = blocking source waits in
    let ends =
      read_archive-Ends tar object wants room limit some_room left good
        (blocking-Streams source left good waits law) blocks fuel a files rest all r g s whole even
        rounds in
    let (same, kept) =
      read_archive-Agrees tar source waits law.ends wants room limit polls fuel a enough
        (Ends-IsDone (read_archive tar object wants room limit 1 fuel a) ends) in
    subst (Ends left good (all_shown wants files) received_eof rest) (sym same) ends
