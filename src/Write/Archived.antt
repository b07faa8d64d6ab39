-- ===== src/Write/Archived.antt =====
-- A client of src/write/mod.rs that writes a whole archive, entry by entry.
use tario.Prelude.{ℕ, zero, suc, Bool, List, [], ◌∷◌, if◌then◌else◌, take, drop, is_empty}
use tario.Io.Result.{no_fuel}
use tario.Io.Poll.{done, crash, ◌>>=◌, ◌>>◌}
use tario.Block.{Tar, Header}
use tario.Archive.{Entry}
use tario.Write.Calls.{AsyncWrite}
use tario.Write.Entries.{Action, add_entry, entry_write, finish}

module _ {W : Type 0} (tar : Tar) (sink : AsyncWrite W) (debug : Bool) (chunk : ℕ) where
  -- The writes of an entry's data, by up to `chunk` bytes; one without data is written once.
  unfoldable pub write_all : ℕ → Entry → List ℕ → Action tar sink debug (Unit {0})
  write_all zero e rest = crash no_fuel
  write_all (suc fuel) e rest = do
    n ← entry_write tar sink debug e (take chunk rest)
    let later = write_all fuel e (drop n rest)
    if is_empty (drop n rest) then done tt else later

  -- The entries, and the end of the archive. A sink that is ready is polled once, and the loop of
  -- `poll_finish` has three rounds.
  unfoldable pub write_archive : ℕ → List (Header × List ℕ) → Action tar sink debug (Unit {0})
  unfolding write_all add_entry
  write_archive limit [] = finish tar sink debug 1 3
  write_archive limit (file ∷ files) = do
    e ← add_entry tar sink debug 1 file.0
    write_all limit e file.1
    write_archive limit files
