-- ===== src/Tests/Archives.antt =====
-- A whole archive of two entries.
use tario.Prelude.{
  ℕ, zero, suc, ◌%◌, ◌<◌, ◌≡◌, refl, sym, inl, Bool, false, List, [], ◌∷◌, arith, ◌==◌, length,
  take, drop, replicate, length-take, length-drop, length-replicate, take-append-drop,
}
use tario.Io.Waited.{Awaited}
use tario.Io.Poll.{Call, ready, pending}
use tario.Read.Calls.{AsyncRead}
use tario.Read.Pending.Source.{Trickles, Gets}
use tario.Read.Pending.Whole.{read_archive-Trickles}
use tario.Block.{block_size, Header, as_header, calc_cksum}
use tario.Buffer.Room.{IsReady}
use tario.State.{expecting_header, entry_size, received_eof}
use tario.Io.Result.{ok}
use tario.Archive.{with_capacity, Archive, new_entry}
use tario.Archive.Start.{Starts, with_capacity-Starts}
use tario.Read.Stream.{Streams}
use tario.Read.Entries.{Ends, IsHeader}
use tario.Tests.Samples.{tar, header, source, roomy, roomy-IsValid}
use tario.Read.Archived.{Stored, layout, end_blocks, read_archive}

pub roomy-IsReady : IsReady roomy
roomy-IsReady = record {
  valid = roomy-IsValid;
  reset = λ h. refl;
  roomy = omega (arith, length-replicate {A = ℕ} 1024 0);
  blocks = omega (arith, length-replicate {A = ℕ} 1024 0);
}

-- Whole blocks are left.
abbrev pub EvenLeft : List ℕ → Type 0
EvenLeft held = length held % block_size ≡ 0

abbrev pub all_left : List ℕ → List ℕ
all_left held = held

pub source-Streams : Streams source all_left EvenLeft
source-Streams room held some_room even good = (
  take room held,
  drop room held,
  refl,
  omega (arith, length-take room held),
  sym (take-append-drop room held),
  (λ (some_left : 0 < length held). omega (arith, length-take room held)),
  omega (arith, length-drop room held),
)

-- The headers differ in their first byte, by which the client chooses.
abbrev pub other : Header
other = 0 ∷ 1 ∷ replicate 510 0

abbrev starts_with_one : Header → Bool
starts_with_one [] = false
starts_with_one (byte ∷ bytes) = byte == 1

abbrev kept : Stored
kept = record { header = header; body = 7 ∷ 8 ∷ 9 ∷ []; pad = replicate 509 0 }

abbrev passed : Stored
passed = record { header = other; body = 4 ∷ 5 ∷ 6 ∷ []; pad = replicate 509 0 }

pub header-IsHeader : IsHeader tar header 3
unfolding as_header new_entry entry_size calc_cksum
header-IsHeader = record {
  whole = refl;
  not_empty = refl;
  stated = refl;
  made = refl;
  sized = refl;
}

pub other-IsHeader : IsHeader tar other 3
unfolding as_header new_entry entry_size calc_cksum
other-IsHeader = record { whole = refl; not_empty = refl; stated = refl; made = refl; sized = refl }

-- How often the source is pending before it gives the bytes that are left.
abbrev pub slow_poll : ℕ → Call (ℕ × List ℕ) (List ℕ)
slow_poll room (zero, held) = (ready (take room held), (zero, drop room held))
slow_poll room (suc n, held) = (pending, (n, held))

abbrev pub slow_left : ℕ × List ℕ → List ℕ
slow_left held = held.1

abbrev pub slow_waits : ℕ × List ℕ → ℕ
slow_waits held = held.0

abbrev pub SlowEven : ℕ × List ℕ → Type 0
SlowEven held = EvenLeft held.1

slow_ends : (room : ℕ) (r : ℕ × List ℕ) → Awaited slow_waits (slow_waits r) (slow_poll room r)
slow_ends room (zero, held) = omega arith
slow_ends room (suc n, held) = omega arith

slow_gives :
    (room : ℕ) (r : ℕ × List ℕ)
    → 0 < room
    → room % block_size ≡ 0
    → SlowEven r
    → Gets slow_left SlowEven room r (slow_poll room r)
slow_gives room (zero, held) some_room even good = (
  omega (arith, length-take room held),
  sym (take-append-drop room held),
  (λ (some_left : 0 < length held). omega (arith, length-take room held)),
  omega (arith, length-drop room held),
)
slow_gives room (suc n, held) some_room even good = (refl, good)

abbrev pub slow_source : AsyncRead (ℕ × List ℕ)
slow_source = record { poll_read = slow_poll }

pub source-Trickles : Trickles slow_source slow_left SlowEven slow_waits
source-Trickles = record { ends = slow_ends; gives = slow_gives }

abbrev whole_archive : Archive (ℕ × List ℕ)
whole_archive = record {
  buf = roomy;
  state = expecting_header;
  io = (2, layout (kept ∷ passed ∷ []) (end_blocks []));
}

read_archive-Trickles_example :
    Ends slow_left SlowEven
      ((header, 7 ∷ 8 ∷ 9 ∷ []) ∷ (other, []) ∷ [])
      received_eof
      []
      (read_archive tar slow_source starts_with_one 2 4 3 3 whole_archive)
read_archive-Trickles_example =
    read_archive-Trickles tar slow_source starts_with_one 2 4 3 slow_left SlowEven slow_waits
      source-Trickles (λ (held : ℕ × List ℕ) (good : SlowEven held). good) 3 whole_archive
      (kept ∷ passed ∷ []) [] (omega arith)
      (
        record { head = header-IsHeader; small = omega arith; filled = refl },
        (λ h. omega arith),
        omega arith,
        (
          record { head = other-IsHeader; small = omega arith; filled = refl },
          (λ h. omega arith),
          omega arith,
          tt,
        ),
      )
      roomy-IsReady refl (inl refl) refl refl (omega arith) (omega arith)

with_capacity-Starts_example :
    (a : Archive (List ℕ)) × (with_capacity [] 8 ≡ ok a) × Starts [] 4096 a
with_capacity-Starts_example = with_capacity-Starts [] 8 (omega arith) (omega arith)
