-- ===== src/Write/Parts.antt =====
-- The parts of `Archive::poll_write_entry` of src/write/mod.rs.
use tario.Prelude.{
  ℕ, ◌-◌, ◌≤◌, ◌≡◌, refl, ap, Bool, true, false, not, ◌||◌, Option, List, [], ◌∷◌, arith, ◌==◌,
  if◌then◌else◌, length, drop_all,
}
use tario.Io.Result.{ok, assert, assertion}
use tario.Io.Poll.{ready, Poll}
use tario.Write.Entries.{
  poll_write_entry, on_write_entry, write_some, finish_written, finish_quietly, entry_write,
}
use tario.State.{State, state_eq, receiving_data, received_data, next, contains, take_until, stops}
use tario.Slices.{bytes_len}
use tario.Archive.{Entry, Archive}
use tario.Block.{Tar, Header}
use tario.State.Layout.{ends}
use tario.Write.Calls.{AsyncWrite, poll_finish_entry}

pub is_received : {s : State} → s ≡ received_data → state_eq s received_data ≡ true
unfolding state_eq
is_received e = ap (λ (s : State). state_eq s received_data) e

or_true : (b : Bool) → (b || true) ≡ true
or_true true = refl
or_true false = refl

module _ {W : Type 0} (tar : Tar) (sink : AsyncWrite W) (debug : Bool) where
  -- The state after `bytes` of the data.
  pub take_data :
      (bytes : List ℕ) (header : Option Header) (rem : ℕ)
      → length bytes ≤ rem
      → take_until tar (receiving_data rem) stops bytes header
        ≡ ok (
          (if length bytes == rem then received_data else receiving_data (rem - length bytes)),
          length bytes,
        )
  unfolding next contains
  take_data bytes header rem fits =
      ends tar header (receiving_data rem)
        (if length bytes == rem then received_data else receiving_data (rem - length bytes))
        (length bytes) bytes (ground arith) (ground (arith, drop_all (length bytes) bytes))

  -- A debug assertion that holds.
  pub asserted : (c : Bool) → c ≡ true → assert (not debug || c) assertion ≡ ok tt
  asserted c holds = rw (holds, or_true (not debug)) refl

  finish_quietly_ready :
      (e : Entry) (a b : Archive W)
      → poll_finish_entry tar sink e a ≡ (ready tt, b)
      → finish_quietly tar sink debug e a ≡ (ready tt, b)
  unfolding finish_quietly
  finish_quietly_ready e a b finished =
      rw (finish_quietly, finished, ap (λ (r : Poll (Unit {0}) × Archive W). r.1) finished)

  pub finish_written_ready :
      (e : Entry) (bufs : List (List ℕ)) (a b : Archive W) (n : ℕ)
      → bytes_len bufs ≡ n
      → a.state ≡ received_data
      → poll_finish_entry tar sink e a ≡ (ready tt, b)
      → finish_written tar sink debug bufs n e a ≡ (ready tt, b)
  unfolding finish_written
  finish_written_ready e bufs a b n counted s finished =
      let same : (bytes_len bufs == n) ≡ true = ground (arith, counted) in
      let at_end : state_eq a.state received_data ≡ true = is_received s in
      rw (
        asserted (bytes_len bufs == n) same,
        asserted (state_eq a.state received_data) at_end,
        finish_quietly_ready e a b finished,
      )

  pub entry_write_some :
      (e : Entry) (a : Archive W) (bytes : List ℕ) (rem : ℕ)
      → a.state ≡ receiving_data rem
      → entry_write tar sink debug e bytes a ≡ write_some tar sink debug (bytes ∷ []) e rem a
  unfolding poll_write_entry on_write_entry
  entry_write_some e a bytes rem s =
      ap (λ (t : State). on_write_entry tar sink debug (bytes ∷ []) e t a) s
