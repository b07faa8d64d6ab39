-- ===== src/Read/Archived.antt =====
-- A client of src/read/mod.rs that reads a whole archive, entry by entry, and the bytes of an archive.
use tario.Prelude.{
  ℕ, zero, suc, ◌+◌, ◌≤◌, ◌≡◌, Bool, none, some, List, [], ◌∷◌, ◌++◌, if◌then◌else◌, length,
  replicate,
}
use tario.Io.Result.{no_fuel}
use tario.Io.Poll.{done, ◌>>=◌, ◌>>◌, crash}
use tario.Block.{Tar, block_size, Header}
use tario.State.{u64_size}
use tario.State.Layout.{padding}
use tario.Archive.{Entry}
use tario.Read.Futures.{next_entry, skip}
use tario.Read.Calls.{Action, AsyncRead}
use tario.Read.Entries.{IsHeader}
use tario.Read.Drain.{read_all}

-- An entry as it stands in an archive: the header block, the data, and the bytes up to a whole block.
pub record Stored : Type 0 where
  pub header : List ℕ
  pub body : List ℕ
  pub pad : List ℕ

pub record IsStored (tar : Tar) (f : Stored) : Type 0 where
  pub head : IsHeader tar f.header (length f.body)
  pub small : length f.body + block_size ≤ u64_size
  pub filled : length f.pad ≡ padding (length f.body)

-- The bytes of entries, one after the other.
abbrev pub layout : List Stored → List ℕ → List ℕ
layout [] tail = tail
layout (f ∷ files) tail = f.header ++ (f.body ++ (f.pad ++ layout files tail))

-- The two empty blocks of the end, and what comes after them.
abbrev pub end_blocks : List ℕ → List ℕ
end_blocks rest = replicate block_size 0 ++ (replicate block_size 0 ++ rest)

module _ {R : Type 0} (tar : Tar) (source : AsyncRead R) (wants : Header → Bool)
    (room limit polls : ℕ) where
  -- The data of an entry are read, by reads of up to `room` bytes, or the entry is skipped.
  unfoldable pub visit : Entry → Action tar source (List ℕ)
  visit e =
      if wants e
      then read_all tar source e room polls limit
      else (skip tar source polls e >> done [])

  -- The loop over the entries, each call awaited on so many polls: the headers, with the data of those
  -- that are wanted.
  unfoldable pub read_archive : ℕ → Action tar source (List (Header × List ℕ))
  unfolding visit
  read_archive zero = crash no_fuel
  read_archive (suc fuel) = do
    found ← next_entry tar source polls
    let later = read_archive fuel
    elim found [
      | none ↦ done []
      | some e ↦ do body ← visit e; others ← later; done ((e, body) ∷ others)
    ]

-- What the loop is to give for an entry.
abbrev pub shown : (Header → Bool) → Stored → Header × List ℕ
shown wants f = (f.header, (if wants f.header then f.body else []))

abbrev pub all_shown : (Header → Bool) → List Stored → List (Header × List ℕ)
all_shown wants [] = []
all_shown wants (f ∷ files) = shown wants f ∷ all_shown wants files
