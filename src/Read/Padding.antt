-- ===== src/Read/Padding.antt =====
-- `Archive::poll_read_entry` of src/read/mod.rs behind the data of an entry.
use tario.Prelude.{
  split_short, split_long, ℕ, zero, suc, ◌-◌, ◌≤◌, ◌<◌, min, ◌≡◌, refl, sym, ap, ◌∙◌, ◌⊎◌, inl, inr,
  true, false, Option, none, some, List, [], ◌∷◌, ◌++◌, arith, ◌==◌, if◌then◌else◌, Bool-cases,
  le-cases, length, take, drop, length-append, length-take, length-drop, drop_all,
}
use tario.Io.Result.{ok}
use tario.Io.Poll.{ready, pass_of, done}
use tario.Block.{Header, Tar, block_size}
use tario.Buffer.{Buf}
use tario.Buffer.Contents.{contents}
use tario.Buffer.Room.{IsReady, IsReady-change}
use tario.State.{State, next, expecting_header, aligning_data, aligned_data, take_slices}
use tario.State.Taken.{take_slices_pad}
use tario.Archive.{Archive, Entry}
use tario.Read.Consume.{consume, settle, passes_on}
use tario.Read.Calls.{poll_fill_buf, AsyncRead, on_read_entry, read_entry_loop, poll_read_entry}
use tario.Read.Buffered.{consume_lem, poll_next_state_ok}
use tario.Read.Data.{consumes_lem}
use tario.Read.Stream.{Streams, stream, fill_some, poll_next_state_refilled}

-- The state in which the padding stands once `n` of the `rem` bytes left are consumed.
abbrev pub pad_after : ℕ → ℕ → State
pad_after rem n = if n == rem then expecting_header else aligning_data (rem - n)

-- What a call leaves of a buffer when `n` bytes of it are consumed.
abbrev pub Drops : Buf → ℕ → Buf → Type 0
Drops b n b' = IsReady b' × (contents b' ≡ drop n (contents b))

zero-cases : (n : ℕ) → (n ≡ 0) ⊎ (0 < n)
zero-cases zero = inl refl
zero-cases (suc n) = inr (omega arith)

module _ {R : Type 0} (tar : Tar) (source : AsyncRead R) where
  settle_pad :
      (rem n : ℕ) (header : Option Header)
      → n ≤ rem
      → settle tar (if n == rem then aligned_data else aligning_data (rem - n)) header
        ≡ ok (pad_after rem n)
  unfolding settle passes_on next
  settle_pad rem n header fits = elim (Bool-cases (n == rem)) [
    | inl z ↦ rw z
    | inr z ↦ let more : (rem - n == 0) ≡ false = ground arith in rw (z, more)
  ]

  consume_pad :
      (a : Archive R) (rem n : ℕ) (header : Option Header)
      → IsReady a.buf
      → a.state ≡ aligning_data rem
      → (rem ≡ 0) ⊎ (0 < n)
      → n ≤ min rem (length (contents a.buf))
      → (b : Buf) × (consume tar a n header ≡ ok (record a { buf = b; state = pad_after rem n }))
        × Drops a.buf n b
  consume_pad a rem n header r s h fits =
      let all = contents a.buf in
      let short : length (take n all) ≡ n = omega (arith, length-take n all) in
      let taken : take_slices tar (aligning_data rem) (take n all ∷ []) header
          ≡ ok (if n == rem then aligned_data else aligning_data (rem - n), n) =
        rw short at (take_slices_pad tar header rem (take n all) (rw short h) (omega arith)) in
      let (b, moved, valid, rest, sized, normal) =
        consume_lem tar a n header {t = if n == rem then aligned_data else aligning_data (rem - n)}
          {u = pad_after rem n} r.valid (omega arith) (rw s taken)
          (settle_pad rem n header (omega arith)) in
      (b, moved, (IsReady-change r valid normal sized, rest))

  -- The two rounds on a buffer that holds bytes: the last one, and one that is followed by others.
  pad_ends :
      (a : Archive R) (e : Entry) (rem fuel : ℕ)
      → IsReady a.buf
      → a.state ≡ aligning_data rem
      → rem ≤ length (contents a.buf)
      → 0 < length (contents a.buf)
      → (b : Buf) × (read_entry_loop tar source (suc fuel) e a
          ≡ (ready [], record a { buf = b; state = expecting_header }))
        × Drops a.buf rem b
  unfolding read_entry_loop on_read_entry next
  pad_ends a e rem fuel r s fits held =
      let m : min rem (length (contents a.buf)) ≡ rem = omega arith in
      let none_left : (rem - rem == 0) ≡ true = ground arith in
      let all : pad_after rem rem ≡ expecting_header = ground arith in
      let (b, moved, (after, rest)) =
        consume_pad a rem rem (some e) r s (zero-cases rem) (omega arith) in
      (
        b,
        pass_of (on_read_entry tar source e (read_entry_loop tar source fuel e)) (
              poll_next_state_ok tar source a r.valid (some e) {r = (aligned_data, rem)} held
                (rw (s, m, none_left)))
            ∙ pass_of (λ _. done [])
                (consumes_lem tar source a rem (some e)
                  (moved ∙ ap (λ (t : State). ok (record a { buf = b; state = t })) all)),
        (after, rest),
      )

  pad_goes_on :
      (a : Archive R) (e : Entry) (rem fuel : ℕ)
      → IsReady a.buf
      → a.state ≡ aligning_data rem
      → length (contents a.buf) < rem
      → 0 < length (contents a.buf)
      → (b : Buf) × (read_entry_loop tar source (suc fuel) e a
          ≡ read_entry_loop tar source fuel e
              (record a { buf = b; state = aligning_data (rem - length (contents a.buf)) }))
        × IsReady b
        × (contents b ≡ [])
  unfolding read_entry_loop on_read_entry next
  pad_goes_on a e rem fuel r s short held =
      let len = length (contents a.buf) in
      let m : min rem len ≡ len = omega arith in
      let more : (rem - len == 0) ≡ false = ground arith in
      let waits : pad_after rem len ≡ aligning_data (rem - len) = ground arith in
      let (b, moved, (after, rest)) = consume_pad a rem len none r s (inr held) (omega arith) in
      (
        b,
        pass_of (on_read_entry tar source e (read_entry_loop tar source fuel e)) (
              poll_next_state_ok tar source a r.valid (some e)
                {r = (aligning_data (rem - len), len)} held (rw (s, m, more)))
            ∙ pass_of (λ _. read_entry_loop tar source fuel e)
                (consumes_lem tar source a len none
                  (moved ∙ ap (λ (t : State). ok (record a { buf = b; state = t })) waits)),
        after,
        rest ∙ drop_all len (contents a.buf) (omega arith),
      )

  pub read_entry_loop_refilled :
      (a a' : Archive R) (e : Entry) (fuel : ℕ)
      → IsReady a'.buf
      → 0 < length (contents a'.buf)
      → poll_fill_buf tar source a ≡ (ready tt, a')
      → read_entry_loop tar source (suc fuel) e a ≡ read_entry_loop tar source (suc fuel) e a'
  unfolding read_entry_loop
  read_entry_loop_refilled a a' e fuel r held filled =
      pass_of (on_read_entry tar source e (read_entry_loop tar source fuel e))
        (poll_next_state_refilled tar source a a' (some e) r held filled)

  module _ (left : R → List ℕ) (good : R → Type 0) (law : Streams source left good) where
    pad_loop :
        (fuel : ℕ) (a : Archive R) (e : Entry) (pad rest : List ℕ)
        → IsReady a.buf
        → good a.io
        → a.state ≡ aligning_data (length pad)
        → stream left a ≡ pad ++ rest
        → 0 < length rest
        → length pad < fuel
        → (b : Buf) × (io : R) × (read_entry_loop tar source fuel e a
            ≡ (ready [], record { buf = b; state = expecting_header; io = io }))
          × IsReady b
          × good io
          × (contents b ++ left io ≡ rest)
    pad_loop zero a e pad rest r g s whole more h = absurd (omega arith)
    pad_loop (suc fuel) a e pad rest r g s whole more h =
        let len = length-append pad rest in
        let (b, io, filled, r', g', held, same) =
          fill_some tar source left good law a r g (omega (arith, ap length whole)) in
        let a' = record a { buf = b; io = io } in
        let start = read_entry_loop_refilled a a' e fuel r' held filled in
        let view : contents b ++ left io ≡ pad ++ rest = same ∙ whole in
        elim (le-cases (length pad) (length (contents b))) [
          | inl enough ↦
              let (c, ends, (after, dropped)) = pad_ends a' e (length pad) fuel r' s enough held in
              (
                c,
                io,
                start ∙ ends,
                after,
                g',
                rw dropped (split_long (contents b) (left io) pad rest view enough),
              )
          | inr short ↦
              let (c, goes, after, none_left) =
                pad_goes_on a' e (length pad) fuel r' s short held in
              let n = length (contents b) in
              let less = length-drop n pad in
              let (d, io', ends, after', g'', final) =
                pad_loop fuel (record a' { buf = c; state = aligning_data (length pad - n) }) e
                  (drop n pad) rest after g' (ap aligning_data (sym less))
                  (rw none_left (split_short (contents b) (left io) pad rest view (omega arith)))
                  more (omega arith) in
              (d, io', start ∙ (goes ∙ ends), after', g'', final)
        ]

    -- Behind the data of an entry `poll_read_entry` passes over the padding, whatever it holds and
    -- however often it has to read, gives no bytes, and leaves the archive at the next header.
    pub poll_read_entry_pad :
        (a : Archive R) (e : Entry) (pad rest : List ℕ)
        → IsReady a.buf
        → good a.io
        → a.state ≡ aligning_data (length pad)
        → stream left a ≡ pad ++ rest
        → 0 < length rest
        → length pad < block_size
        → (b : Buf) × (io : R) × (poll_read_entry tar source e a
            ≡ (ready [], record { buf = b; state = expecting_header; io = io }))
          × IsReady b
          × good io
          × (contents b ++ left io ≡ rest)
    unfolding poll_read_entry
    poll_read_entry_pad a e pad rest r g s whole more small =
        pad_loop 1024 a e pad rest r g s whole more (omega arith)
