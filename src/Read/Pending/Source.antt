-- ===== src/Read/Pending/Source.antt =====
-- A source that may be pending, as one that waits until it is not.
use tario.Prelude.{ℕ, zero, suc, ◌%◌, ◌≤◌, ◌<◌, ◌≡◌, refl, sym, ap, ◌∙◌, List, ◌++◌, arith, length}
use tario.Io.Poll.{Call, Poll, ready, failed, pending, panicked, awaits, polled}
use tario.Io.Waited.{Awaited, waited}
use tario.Read.Calls.{AsyncRead}
use tario.Block.{block_size}
use tario.Read.Stream.{Streams}

-- The source that waits.
abbrev pub blocking : {R : Type 0} → AsyncRead R → (R → ℕ) → AsyncRead R
blocking source waits = record { poll_read = λ room. waited waits (source.poll_read room) }

-- A poll with room for some blocks is pending, or ready with first bytes of those that are left, and with
-- some if any are.
abbrev pub Gets : {R : Type 0} → (R → List ℕ) → (R → Type 0) → ℕ → R → Poll (List ℕ) × R → Type 0
Gets left good room r (ready got, r') =
    (length got ≤ room)
    × (left r ≡ got ++ left r')
    × (0 < length (left r) → 0 < length got)
    × good r'
Gets left good room r (pending, r') = (left r' ≡ left r) × good r'
Gets left good room r (failed e, r') = ⊥
Gets left good room r (panicked p, r') = ⊥

-- As `Streams`, of a source that may be pending: so often at most.
pub record Trickles {R : Type 0} (source : AsyncRead R) (left : R → List ℕ) (good : R → Type 0)
    (waits : R → ℕ) : Type 0 where
  pub ends : (room : ℕ) (r : R) → Awaited waits (waits r) (source.poll_read room r)
  pub gives :
      (room : ℕ) (r : R)
      → 0 < room
      → room % block_size ≡ 0
      → good r
      → Gets left good room r (source.poll_read room r)

module _ {R : Type 0} (source : AsyncRead R) (left : R → List ℕ) (good : R → Type 0) (waits : R → ℕ)
    (law : Trickles source left good waits) where
  -- What a poll of the source that waits is ready with.
  abbrev Given : ℕ → R → Poll (List ℕ) × R → Type 0
  Given room r o =
      (got : List ℕ) × (r' : R) × (o ≡ (ready got, r'))
      × (length got ≤ room)
      × (left r ≡ got ++ left r')
      × (0 < length (left r) → 0 < length got)
      × good r'

  polled-Given :
      (again : Call R (List ℕ)) (room : ℕ) (r : R) (o : Poll (List ℕ) × R)
      → Gets left good room r o
      → Awaited waits (waits r) o
      → ((t : R) → good t → waits t < waits r → Given room t (again t))
      → Given room r (polled again o)
  polled-Given again room r (ready got, t) (fits, gave, some_bytes, g) less goes =
      (got, t, refl, fits, gave, some_bytes, g)
  polled-Given again room r (failed e, t) never less goes = absurd never
  polled-Given again room r (panicked p, t) never less goes = absurd never
  polled-Given again room r (pending, t) (same, g) less goes =
      let (got, r', shows, fits, gave, some_bytes, g') = goes t g less in
      (got, r', shows, fits, sym same ∙ gave, (λ h. some_bytes (omega (arith, ap length same))), g')

  awaits-Given :
      (polls room : ℕ) (r : R)
      → 0 < room
      → room % block_size ≡ 0
      → good r
      → waits r < polls
      → Given room r (awaits polls (source.poll_read room) r)
  unfolding awaits
  awaits-Given zero room r some_room even g h = absurd (omega arith)
  awaits-Given (suc polls) room r some_room even g h =
      polled-Given (awaits polls (source.poll_read room)) room r (source.poll_read room r)
        (law.gives room r some_room even g) (law.ends room r)
        (λ (t : R) g' less. awaits-Given polls room t some_room even g' (omega arith))

  -- A source that waits is always ready.
  pub blocking-Streams : Streams (blocking source waits) left good
  blocking-Streams room r some_room even g =
      awaits-Given (suc (waits r)) room r some_room even g (omega arith)
