-- ===== src/Read/Skip.antt =====
-- `Archive::poll_skip_entry` of src/read/mod.rs in the data of an entry.
use tario.Prelude.{
  ℕ, zero, suc, ◌+◌, ◌-◌, ◌≤◌, ◌<◌, min, ◌≡◌, refl, sym, ap, ◌∙◌, inl, inr, false, some, List, [],
  ◌++◌, arith, ◌==◌, if◌then◌else◌, le-cases, length, take, drop, length-append, length-take,
  length-drop, drop_all, split_short, split_long,
}
use tario.Io.Result.{ok}
use tario.Io.Poll.{Poll, ready, pass_of, ◌>>◌}
use tario.Block.{Tar, block_size}
use tario.Buffer.{Buf}
use tario.Buffer.Contents.{contents}
use tario.Buffer.Room.{IsReady, IsReady-change}
use tario.State.{expecting_header, receiving_data, aligning_data, entry_size, u64_size, state_eq}
use tario.State.Layout.{padding}
use tario.Archive.{Archive, Entry}
use tario.Read.Consume.{consume}
use tario.Read.Calls.{
  AsyncRead, consumes, poll_fill_buf, poll_read_entry, skip_loop, check_skipped, poll_skip_entry,
}
use tario.Read.Data.{consumes_lem, data_after, poll_read_entry_data, consume_data}
use tario.Read.Stream.{Streams, stream, fill_some}
use tario.Read.Padding.{read_entry_loop_refilled, poll_read_entry_pad}

-- The archive at the next header, with `rest` to be read.
abbrev pub Skipped :
    {R : Type 0}
    → (R → List ℕ)
    → (R → Type 0)
    → Archive R
    → List ℕ
    → Poll (Unit {0}) × Archive R
    → Type 0
Skipped {R} left good a rest result =
    (b : Buf) × (io : R) × (result
      ≡ (ready tt, record a { buf = b; state = expecting_header; io = io }))
    × IsReady b
    × good io
    × (contents b ++ left io ≡ rest)

module _ {R : Type 0} (tar : Tar) (source : AsyncRead R) (e : Entry) where
  pub poll_read_entry_refilled :
      (a a' : Archive R)
      → IsReady a'.buf
      → 0 < length (contents a'.buf)
      → poll_fill_buf tar source a ≡ (ready tt, a')
      → poll_read_entry tar source e a ≡ poll_read_entry tar source e a'
  unfolding poll_read_entry
  poll_read_entry_refilled a a' r held filled =
      read_entry_loop_refilled tar source a a' e 1023 r held filled

  skip_on :
      (fuel n : ℕ) (a a' b : Archive R) (got : List ℕ)
      → poll_read_entry tar source e a ≡ (ready got, a')
      → length got ≡ n
      → 0 < n
      → consume tar a' n (some e) ≡ ok b
      → skip_loop tar source (suc fuel) e a ≡ skip_loop tar source fuel e b
  unfolding skip_loop
  skip_on fuel n a a' b got shows len some_bytes moved =
      let test : (n == 0) ≡ false = ground arith in
      rw (shows, len, test, consumes_lem tar source a' n (some e) moved)

  skip_end :
      (fuel : ℕ) (a a' : Archive R)
      → poll_read_entry tar source e a ≡ (ready [], a')
      → a'.state ≡ expecting_header
      → skip_loop tar source (suc fuel) e a ≡ (ready tt, a')
  unfolding skip_loop check_skipped state_eq
  skip_end fuel a a' shows s = rw (shows, s)

  module _ (left : R → List ℕ) (good : R → Type 0) (law : Streams source left good) (size : ℕ)
      (sized : entry_size tar (some e) ≡ ok size) (small : size + block_size ≤ u64_size)
      (pad rest : List ℕ) (filled : length pad ≡ padding size) (more : 0 < length rest) where
    skip_pad :
        (fuel : ℕ) (a : Archive R)
        → IsReady a.buf
        → good a.io
        → a.state ≡ aligning_data (padding size)
        → stream left a ≡ pad ++ rest
        → Skipped left good a rest (skip_loop tar source (suc fuel) e a)
    skip_pad fuel a r g s whole =
        let (b, io, shows, after, g', final) =
          poll_read_entry_pad tar source left good law a e pad rest r g
            (s ∙ ap aligning_data (sym filled)) whole more (omega arith) in
        (
          b,
          io,
          skip_end fuel a (record a { buf = b; state = expecting_header; io = io }) shows refl,
          after,
          g',
          final,
        )

    -- A round on a buffer that holds bytes of the data.
    skip_round :
        (fuel rem : ℕ) (a : Archive R)
        → IsReady a.buf
        → 0 < length (contents a.buf)
        → a.state ≡ receiving_data rem
        → 0 < rem
        → let n = min rem (length (contents a.buf)) in
          (c : Buf) × (skip_loop tar source (suc fuel) e a
            ≡ skip_loop tar source fuel e (record a { buf = c; state = data_after size rem n }))
          × IsReady c
          × (contents c ≡ drop n (contents a.buf))
    skip_round fuel rem a r held s some_bytes =
        let n = min rem (length (contents a.buf)) in
        let (c, moved, valid, dropped, kept, normal) =
          consume_data tar source a e r.valid rem s some_bytes held size n sized small (omega arith)
            (omega arith) in
        (
          c,
          skip_on fuel n a a (record a { buf = c; state = data_after size rem n })
              (take n (contents a.buf))
              (poll_read_entry_data tar source a e r.valid rem s some_bytes held)
              (omega (arith, length-take n (contents a.buf))) (omega arith) moved,
          IsReady-change r valid normal kept,
          dropped,
        )

    skip_loop_refilled :
        (fuel : ℕ) (a a' : Archive R)
        → IsReady a'.buf
        → 0 < length (contents a'.buf)
        → poll_fill_buf tar source a ≡ (ready tt, a')
        → skip_loop tar source (suc fuel) e a ≡ skip_loop tar source (suc fuel) e a'
    unfolding skip_loop
    skip_loop_refilled fuel a a' r held polled =
        pass_of
          (λ got.
            if length got == 0
            then check_skipped tar source
            else (consumes tar source (length got) (some e) >> skip_loop tar source fuel e))
          (poll_read_entry_refilled a a' r held polled)

    skip_loop-Skipped :
        (fuel : ℕ) (a : Archive R) (body : List ℕ)
        → IsReady a.buf
        → good a.io
        → a.state ≡ receiving_data (length body)
        → 0 < length body
        → stream left a ≡ body ++ (pad ++ rest)
        → length body + 1 < fuel
        → Skipped left good a rest (skip_loop tar source fuel e a)
    skip_loop-Skipped zero a body r g s some_bytes whole h = absurd (omega arith)
    skip_loop-Skipped (suc zero) a body r g s some_bytes whole h = absurd (omega arith)
    skip_loop-Skipped (suc (suc fuel)) a body r g s some_bytes whole h =
        let len = length-append body (pad ++ rest) in
        let (b, io, polled, r', g', held, same) =
          fill_some tar source left good law a r g (omega (arith, ap length whole)) in
        let a' = record a { buf = b; io = io } in
        let view : contents b ++ left io ≡ body ++ (pad ++ rest) = same ∙ whole in
        let n = min (length body) (length (contents b)) in
        let (c, round, after, dropped) =
          skip_round (suc fuel) (length body) a' r' held s some_bytes in
        let goes = skip_loop_refilled (suc fuel) a a' r' held polled ∙ round in
        let b' = record a' { buf = c; state = data_after size (length body) n } in
        elim (le-cases (length body) (length (contents b))) [
          | inl enough ↦
              let all : n ≡ length body = omega arith in
              let (d, io', ended, ready', g'', final) = skip_pad fuel b' after g' (ground arith) (
                rw (dropped, all)
                  (split_long (contents b) (left io) body (pad ++ rest) view enough)) in
              (d, io', goes ∙ ended, ready', g'', final)
          | inr short ↦
              let all : n ≡ length (contents b) = omega arith in
              let waits : b'.state ≡ receiving_data (length body - n) = ground arith in
              let less = length-drop n body in
              let none_left : contents c ≡ [] = dropped ∙ drop_all n (contents b) (omega arith) in
              let (d, io', ended, ready', g'', final) =
                skip_loop-Skipped (suc fuel) b' (drop n body) after g'
                  (waits ∙ ap receiving_data (sym less)) (omega arith)
                  (rw (none_left, all)
                    (split_short (contents b) (left io) body (pad ++ rest) view (omega arith)))
                  (omega arith) in
              (d, io', goes ∙ ended, ready', g'', final)
        ]

    -- `poll_skip_entry` in an entry with data left, reading from a source that is always ready, into a
    -- buffer that is valid, of a size that is a positive multiple of 512, and reset when drained: it
    -- ends, at the next header, and has passed over exactly the rest of the data and the padding,
    -- whatever they hold and however many reads that takes. The header states a size of at most 2^64 -
    -- 512, of which no more are left, and bytes follow the padding.
    pub poll_skip_entry-Skipped :
        (a : Archive R) (body : List ℕ)
        → IsReady a.buf
        → good a.io
        → a.state ≡ receiving_data (length body)
        → 0 < length body
        → length body ≤ size
        → stream left a ≡ body ++ (pad ++ rest)
        → Skipped left good a rest (poll_skip_entry tar source e a)
    unfolding poll_skip_entry
    poll_skip_entry-Skipped a body r g s some_bytes within whole =
        skip_loop-Skipped u64_size a body r g s some_bytes whole (omega arith)
