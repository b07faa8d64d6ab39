-- ===== src/Read/Drained.antt =====
-- A reader that calls `Entry::poll_read` of src/read/mod.rs to the end of an entry.
use tario.Prelude.{
  ◌∷◌, refl, inl, inr, nil_of_length, true, ℕ, zero, suc, ◌+◌, ◌-◌, ◌≤◌, ◌<◌, min, ◌≡◌, sym, ap,
  ◌∙◌, inl, inr, true, some, List, [], ◌++◌, append-nil, arith, ◌==◌, Bool-cases, length, take,
  drop, length-append, length-take, length-drop, take-append-drop, take_all, drop_all, split_take,
  split_drop,
}
use tario.Io.Result.{ok}
use tario.Io.Poll.{ready}
use tario.Block.{Tar, block_size}
use tario.Buffer.Contents.{contents}
use tario.Buffer.Room.{IsReady}
use tario.State.{aligning_data, State, receiving_header, receiving_data, entry_size, u64_size}
use tario.State.Layout.{padding}
use tario.Archive.{Archive, Entry}
use tario.Read.Calls.{AsyncRead, poll_read}
use tario.Read.Data.{data_after}
use tario.Read.Stream.{Streams, stream, fill_some}
use tario.Read.Entries.{Ends}
use tario.Read.Starts.{AtHeader}
use tario.Read.Drain.{
  read_all-empty, read_all, read_all-goes_on, read_all-pad, read_round, poll_read_refilled,
}

-- A read that gives bytes, and the reads after it.
read_all-joins :
    {R : Type 0} (tar : Tar) (source : AsyncRead R) (e : Entry) (room : ℕ) (left : R → List ℕ)
    (good : R → Type 0) (fuel : ℕ) (a b : Archive R) {s : State} (got more body rest : List ℕ)
    → poll_read tar source e room a ≡ (ready got, b)
    → 0 < length got
    → got ++ more ≡ body
    → Ends left good more s rest (read_all tar source e room 1 fuel b)
    → Ends left good body s rest (read_all tar source e room 1 (suc fuel) a)
read_all-joins {R} tar source e room left good fuel a b {s} got more body rest shows some_got all
      (c, io, ended, after, g, same) =
    let final : Archive R = record { buf = c; state = s; io = io } in
    (
      c,
      io,
      read_all-goes_on tar source e room fuel a b final got more shows some_got ended
          ∙ ap (λ (xs : List ℕ). (ready xs, final)) all,
      after,
      g,
      same,
    )

module _ {R : Type 0} (tar : Tar) (source : AsyncRead R) (e : Entry) (room : ℕ)
    (some_room : 0 < room) (left : R → List ℕ) (good : R → Type 0) (law : Streams source left good)
    (size : ℕ) (sized : entry_size tar (some e) ≡ ok size) (small : size + block_size ≤ u64_size)
    (pad rest : List ℕ) (filled : length pad ≡ padding size) (more : 0 < length rest) where
  read_all-Ends :
      (fuel : ℕ) (a : Archive R) (body : List ℕ)
      → IsReady a.buf
      → good a.io
      → a.state ≡ receiving_data (length body)
      → 0 < length body
      → stream left a ≡ body ++ (pad ++ rest)
      → length body < fuel
      → Ends left good body
          (receiving_header block_size true)
          rest
          (read_all tar source e room 1 fuel a)
  read_all-Ends zero a body r g s some_bytes whole h = absurd (omega arith)
  read_all-Ends (suc zero) a body r g s some_bytes whole h = absurd (omega arith)
  read_all-Ends (suc (suc fuel)) a body r g s some_bytes whole h =
      let len = length-append body (pad ++ rest) in
      let (b, io, polled, r', g', held, same) =
        fill_some tar source left good law a r g (omega (arith, ap length whole)) in
      let a' = record a { buf = b; io = io } in
      let view : contents b ++ left io ≡ body ++ (pad ++ rest) = same ∙ whole in
      let n = min room (min (length body) (length (contents b))) in
      let (c, round, after, dropped) =
        read_round tar source e room some_room left good law size sized small pad rest filled more
          (length body) a' r' held s some_bytes in
      let shows = poll_read_refilled tar source e room some_room a a' r' held polled ∙ round in
      let got = take n (contents b) in
      let b' = record a' { buf = c; state = data_after size (length body) n } in
      let front : got ≡ take n body =
        split_take n (contents b) (left io) body (pad ++ rest) view (omega arith) (omega arith) in
      let back : contents c ++ left io ≡ drop n body ++ (pad ++ rest) =
        rw dropped (
          split_drop n (contents b) (left io) body (pad ++ rest) view (omega arith)
            (omega arith)) in
      let some_got : 0 < length got = omega (arith, length-take n (contents b)) in
      elim (Bool-cases (n == length body)) [
        | inl z ↦
            let all : n ≡ length body = ground arith in
            read_all-joins tar source e room left good (suc fuel) a b' got [] body rest shows
              some_got (append-nil got ∙ (front ∙ take_all n body (omega arith)))
              (read_all-pad tar source e room some_room left good law size sized small pad rest
                filled more fuel b' after g' (ground arith)
                (back ∙ ap (λ (xs : List ℕ). xs ++ (pad ++ rest)) (drop_all n body (omega arith))))
        | inr z ↦
            let waits : b'.state ≡ receiving_data (length body - n) = ground arith in
            let less = length-drop n body in
            read_all-joins tar source e room left good (suc fuel) a b' got (drop n body) body rest
              shows some_got
              (ap (λ (xs : List ℕ). xs ++ drop n body) front ∙ take-append-drop n body)
              (read_all-Ends (suc fuel) b' (drop n body) after g'
                (waits ∙ ap receiving_data (sym less)) (ground arith) back (omega arith))
      ]

-- A reader that calls `poll_read` in the data of an entry until it gives no bytes, with room for some
-- bytes each time, on a source that is always ready and a buffer of whole blocks that is ready to be
-- filled, is given exactly the data, also where they are empty, whatever pieces they come in; one call
-- more than the entry has bytes is always enough. The archive is then before the next header, with the
-- padding passed over. The header states the size, of at most 2^64 - 512, and bytes follow the padding.
pub read_all-AtHeader :
    {R : Type 0} (tar : Tar) (source : AsyncRead R) (e : Entry) (room : ℕ) (left : R → List ℕ)
    (good : R → Type 0) (law : Streams source left good) (fuel : ℕ) (a : Archive R)
    (body pad rest : List ℕ)
    → 0 < room
    → entry_size tar (some e) ≡ ok (length body)
    → length body + block_size ≤ u64_size
    → length pad ≡ padding (length body)
    → 0 < length rest
    → IsReady a.buf
    → good a.io
    → a.state ≡ receiving_data (length body)
    → stream left a ≡ body ++ (pad ++ rest)
    → length body < fuel
    → (s : State) × AtHeader s × Ends left good body s rest (read_all tar source e room 1 fuel a)
read_all-AtHeader tar source e room left good law zero a body pad rest some_room sized small filled
      more r g s whole h =
    absurd (omega arith)
read_all-AtHeader tar source e room left good law (suc fuel) a [] pad rest some_room sized small
      filled more r g s whole h =
    let no_pad : pad ≡ [] = nil_of_length pad (ground arith) in
    (
      aligning_data 0,
      inr (inr refl),
      read_all-empty tar source e room some_room left good law 0 sized small pad rest filled more
          fuel a r g s refl (whole ∙ ap (λ (xs : List ℕ). xs ++ rest) no_pad),
    )
read_all-AtHeader tar source e room left good law (suc fuel) a (x ∷ body) pad rest some_room sized
      small filled more r g s whole h =
    (
      receiving_header block_size true,
      inr (inl refl),
      read_all-Ends tar source e room some_room left good law (length (x ∷ body)) sized small pad
          rest filled more (suc fuel) a (x ∷ body) r g s (omega arith) whole h,
    )
