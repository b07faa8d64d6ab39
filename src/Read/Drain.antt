-- ===== src/Read/Drain.antt =====
-- A reader that calls `Entry::poll_read` of src/read/mod.rs until it gives no bytes.
use tario.Prelude.{
  ℕ, zero, suc, ◌+◌, ◌≤◌, ◌<◌, min, ◌≡◌, refl, sym, ap, ◌∙◌, true, false, some, List, [], ◌++◌,
  arith, ◌==◌, if◌then◌else◌, length, take, drop, is_empty, is_empty-some,
}
use tario.Io.Result.{ok, no_fuel}
use tario.Io.Poll.{awaits, awaits_ready, ready, pass_of, crash, done, ◌>>=◌, ◌>>◌}
use tario.Block.{Tar, block_size}
use tario.Buffer.{Buf}
use tario.Buffer.Contents.{contents}
use tario.Buffer.Room.{IsReady, IsReady-change}
use tario.State.{
  State, next, contains, expecting_header, receiving_header, receiving_data, received_data,
  aligning_data, entry_size, u64_size,
}
use tario.State.Layout.{padding, scan, ends, next_pad}
use tario.Archive.{Archive, Entry}
use tario.Read.Consume.{settle, passes_on}
use tario.Read.Calls.{AsyncRead, Action, consumes, poll_fill_buf, poll_read, poll_read_entry}
use tario.Read.Data.{data_after, poll_read_data, poll_read_parts}
use tario.Read.Faults.{poll_read_entry_empty, poll_read_entry_empty}
use tario.Read.Stream.{Streams, stream, fill_some}
use tario.Read.Padding.{poll_read_entry_pad}
use tario.Read.Skip.{poll_read_entry_refilled}
use tario.Read.Header.{consume_front}
use tario.Read.Entries.{Ends}

module _ {R : Type 0} (tar : Tar) (source : AsyncRead R) (e : Entry) (room polls : ℕ) where
  -- The reads of an entry with room for `room` bytes each, up to one of no bytes, each awaited on so many
  -- polls.
  unfoldable pub read_all : ℕ → Action tar source (List ℕ)
  read_all zero = crash no_fuel
  read_all (suc fuel) = do
    got ← awaits polls (poll_read tar source e room)
    let later = read_all fuel
    if is_empty got then done [] else (later >>= λ more. done (got ++ more))

module _ {R : Type 0} (tar : Tar) (source : AsyncRead R) (e : Entry) (room : ℕ) where
  read_all-ends :
      (fuel : ℕ) (a a' : Archive R)
      → poll_read tar source e room a ≡ (ready [], a')
      → read_all tar source e room 1 (suc fuel) a ≡ (ready [], a')
  unfolding read_all
  read_all-ends fuel a a' shows = rw (awaits_ready 0 (poll_read tar source e room) a shows) refl

  pub read_all-goes_on :
      (fuel : ℕ) (a b c : Archive R) (got more : List ℕ)
      → poll_read tar source e room a ≡ (ready got, b)
      → 0 < length got
      → read_all tar source e room 1 fuel b ≡ (ready more, c)
      → read_all tar source e room 1 (suc fuel) a ≡ (ready (got ++ more), c)
  unfolding read_all
  read_all-goes_on fuel a b c got more shows some_bytes later =
      rw (awaits_ready 0 (poll_read tar source e room) a shows, is_empty-some got some_bytes, later)
        refl

  module _ (some_room : 0 < room) where
    pub poll_read_refilled :
        (a a' : Archive R)
        → IsReady a'.buf
        → 0 < length (contents a'.buf)
        → poll_fill_buf tar source a ≡ (ready tt, a')
        → poll_read tar source e room a ≡ poll_read tar source e room a'
    unfolding poll_read
    poll_read_refilled a a' r held filled =
        let test : (room == 0) ≡ false = ground arith in
        rw test (
          pass_of
            (λ (bytes : List ℕ).
              let n = min (length bytes) room in
              consumes tar source n (some e) >> done (take n bytes))
            (poll_read_entry_refilled tar source e a a' r held filled))

    -- The read at the end of the data, which moves on to the block that comes next.
    pub poll_read_end :
        (a a' : Archive R) {s t u : State}
        → IsReady a'.buf
        → a'.state ≡ s
        → poll_read_entry tar source e a ≡ (ready [], a')
        → scan tar (some e) s [] ≡ ok (t, 0)
        → settle tar t (some e) ≡ ok u
        → (b : Buf) × (poll_read tar source e room a ≡ (ready [], record a' { buf = b; state = u }))
          × IsReady b
          × (contents b ≡ contents a'.buf)
    poll_read_end a a' {s} {t} {u} r at_s shows leads settles =
        let (b, moved, after, same) =
          consume_front tar source a' [] (contents a'.buf) (some e) {n = 0} {t = t} {u = u} r refl
            refl (ap (λ (v : State). scan tar (some e) v []) at_s ∙ leads) settles in
        (
          b,
          poll_read_parts tar source a a' (record a' { buf = b; state = u }) e room [] {n = 0}
              some_room shows (omega arith) moved,
          after,
          same,
        )

    module _ (left : R → List ℕ) (good : R → Type 0) (law : Streams source left good) (size : ℕ)
        (sized : entry_size tar (some e) ≡ ok size) (small : size + block_size ≤ u64_size)
        (pad rest : List ℕ) (filled : length pad ≡ padding size) (more : 0 < length rest) where
      -- Reading behind the data: the padding is passed over.
      pub read_all-pad :
          (fuel : ℕ) (a : Archive R)
          → IsReady a.buf
          → good a.io
          → a.state ≡ aligning_data (padding size)
          → stream left a ≡ pad ++ rest
          → Ends left good []
              (receiving_header block_size true)
              rest
              (read_all tar source e room 1 (suc fuel) a)
      unfolding next contains settle passes_on
      read_all-pad fuel a r g s whole =
          let (b, io, shows, after, g', final) =
            poll_read_entry_pad tar source left good law a e pad rest r g
              (s ∙ ap aligning_data (sym filled)) whole more (omega arith) in
          let (c, ended, ready', same) =
            poll_read_end a (record a { buf = b; state = expecting_header; io = io }) after refl
              shows
              (ends tar (some e) expecting_header (receiving_header block_size true) 0 [] refl refl)
              refl in
          (c, io, read_all-ends fuel a _ ended, ready', g', rw same final)

      -- An entry without data.
      pub read_all-empty :
          (fuel : ℕ) (a : Archive R)
          → IsReady a.buf
          → good a.io
          → a.state ≡ receiving_data 0
          → padding size ≡ 0
          → stream left a ≡ rest
          → Ends left good [] (aligning_data 0) rest (read_all tar source e room 1 (suc fuel) a)
      unfolding next contains settle passes_on
      read_all-empty fuel a r g s none_padded whole =
          let (b, io, polled, r', g', held, same) =
            fill_some tar source left good law a r g (omega (arith, ap length whole)) in
          let a' = record a { buf = b; io = io } in
          let shows : poll_read_entry tar source e a ≡ (ready [], a') =
            poll_read_entry_refilled tar source e a a' r' held polled
            ∙ poll_read_entry_empty tar source a' r'.valid held e s in
          let (c, ended, after, kept) =
            poll_read_end a a' {s = receiving_data 0} {t = received_data} {u = aligning_data 0} r' s
              shows (ends tar (some e) (receiving_data 0) received_data 0 [] refl refl)
              (rw (next_pad tar (some e) size [] sized small, none_padded)) in
          (c, io, read_all-ends fuel a _ ended, after, g', rw kept (same ∙ whole))

      -- A round on a buffer that holds bytes of the data.
      pub read_round :
          (rem : ℕ) (a : Archive R)
          → IsReady a.buf
          → 0 < length (contents a.buf)
          → a.state ≡ receiving_data rem
          → 0 < rem
          → let n = min room (min rem (length (contents a.buf))) in
            (c : Buf) × (poll_read tar source e room a ≡ (
              ready (take n (contents a.buf)),
              record a { buf = c; state = data_after size rem n },
            ))
            × IsReady c
            × (contents c ≡ drop n (contents a.buf))
      read_round rem a r held s some_bytes =
          let (c, shows, valid, dropped, kept, normal) =
            poll_read_data tar source a e r.valid rem s some_bytes held size room sized small
              some_room in
          (c, shows, IsReady-change r valid normal kept, dropped)
