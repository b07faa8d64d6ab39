-- ===== src/Read/Futures.antt =====
-- The futures and the stream of src/read/mod.rs, and the methods of src/lib.rs that hand them out.
use tario.Prelude.{refl, suc, ◌≡◌, ℕ, ◌⊎◌, inl, inr, Option, none, some}
use tario.Io.Error.{IoError}
use tario.Io.Poll.{
  Poll, pass, awaits_ready, pass_of, ready, failed, pending, panicked, done, awaits, ◌>>=◌,
}
use tario.Block.{Tar}
use tario.Archive.{Archive, Entry}
use tario.Read.Calls.{poll_skip, AsyncRead, Action, poll_next_entry, poll_skip_entry}

-- What the stream of entries gives: an error on the left, an entry on the right.
abbrev pub Item : Type 0
Item = IoError ⊎ Entry

-- `NextEntry` and `Entries` borrow the archive; `Archive::entries` hands out the latter.
abbrev pub NextEntry : Type 0 → Type 0
NextEntry R = Archive R

abbrev pub Entries : Type 0 → Type 0
Entries R = Archive R

abbrev pub entries : {R : Type 0} → Archive R → Entries R
entries a = a

module _ {R : Type 0} (tar : Tar) (source : AsyncRead R) where
  abbrev hands_out : Option Entry → Action tar source (Option Entry)
  hands_out (some entry) = done (some entry)
  hands_out none = done none

  -- `NextEntry::poll`
  unfoldable pub next_entry_poll : Action tar source (Option Entry)
  next_entry_poll = do found ← poll_next_entry tar source; hands_out found

  -- `Archive::next_entry`, awaited on so many polls.
  unfoldable pub next_entry : ℕ → Action tar source (Option Entry)
  unfolding next_entry_poll
  next_entry polls = awaits polls next_entry_poll

  -- `Entries::poll_next`; its `?` makes an error an item of the stream.
  unfoldable pub entries_poll_next : Action tar source (Option Item)
  entries_poll_next a =
      let (r, b) = poll_next_entry tar source a in
      elim r [
        | ready found ↦ elim found [
          | some entry ↦ (ready (some (inr entry)), b)
          | none ↦ (ready none, b)
        ]
        | failed e ↦ (ready (some (inl e)), b)
        | pending ↦ (pending, b)
        | panicked p ↦ (panicked p, b)
      ]

  -- `Entry::skip`, on so many polls.
  unfoldable pub skip : ℕ → Entry → Action tar source (Unit {0})
  skip polls e = awaits polls (poll_skip tar source e)

  handed_out : (o : Poll (Option Entry) × Archive R) → pass o hands_out ≡ o
  handed_out (ready none, a) = refl
  handed_out (ready (some entry), a) = refl
  handed_out (failed e, a) = refl
  handed_out (pending, a) = refl
  handed_out (panicked p, a) = refl

  -- The poll of the future is the one of the archive.
  pub next_entry_poll-poll_next_entry :
      (a : Archive R) → next_entry_poll a ≡ poll_next_entry tar source a
  unfolding next_entry_poll
  next_entry_poll-poll_next_entry a = handed_out (poll_next_entry tar source a)

  -- Where the first poll is ready, these are the calls that they await.
  pub next_entry_ready :
      (polls : ℕ) (a : Archive R) {found : Option Entry} {b : Archive R}
      → poll_next_entry tar source a ≡ (ready found, b)
      → next_entry (suc polls) a ≡ (ready found, b)
  unfolding next_entry next_entry_poll
  next_entry_ready polls a {found = none} e =
      awaits_ready polls next_entry_poll a (pass_of hands_out e)
  next_entry_ready polls a {found = some entry} e =
      awaits_ready polls next_entry_poll a (pass_of hands_out e)

  pub skip_ready :
      (polls : ℕ) (a : Archive R) (e : Entry) {b : Archive R}
      → poll_skip_entry tar source e a ≡ (ready tt, b)
      → skip (suc polls) e a ≡ (ready tt, b)
  unfolding skip
  skip_ready polls a e shows = awaits_ready polls (poll_skip_entry tar source e) a shows
