-- ===== src/Write/Ready.antt =====
-- The flush of src/write/mod.rs on a sink that is always ready.
use tario.Prelude.{
  ℕ, zero, suc, ◌+◌, ◌-◌, ◌≤◌, ◌<◌, ◌≡◌, refl, sym, ap, ◌∙◌, ◌⊎◌, inl, inr, Bool, true, false, ◌&&◌,
  List, [], ◌++◌, append-nil, append_assoc, arith, ltb, leb, ◌==◌, Bool-cases, length, take, drop,
  concat, length-drop, take-append-drop,
}
use tario.Io.Poll.{Poll, ready, pass_of, modify}
use tario.Block.{Tar}
use tario.Buffer.{usize_size, Buf, capacity, clear, remaining}
use tario.Buffer.Contents.{IsValid, contents, shown, length-contents, after_read_lem, clear_lem}
use tario.Slices.{Slice}
use tario.State.{State}
use tario.Archive.{Archive}
use tario.Write.Calls.{AsyncWrite, make_room, poll_flush_buffered, flush_loop, flush_round}
use tario.Write.Flush.{
  after_send, flush_loop_step, flush_loop_done, flush_round_lem, commits_read_lem, nil_of,
}

-- A poll that takes all that it is given.
abbrev pub TakesAll : {W : Type 0} → (W → List ℕ) → List ℕ → W → Poll ℕ × W → Type 0
TakesAll {W} sent bytes w r =
    (w' : W) × (r ≡ (ready (length bytes), w')) × (sent w' ≡ sent w ++ bytes)

-- A sink that takes all it is given, slices and bytes, such as a vector of bytes.
pub record IsWhole {W : Type 0} (sink : AsyncWrite W) (sent : W → List ℕ) : Type 0 where
  pub slices :
      (bufs : List Slice) (w : W) → TakesAll sent (concat bufs) w (sink.poll_write_vectored bufs w)
  pub bytes : (buf : List ℕ) (w : W) → TakesAll sent buf w (sink.poll_write buf w)

-- A poll of the sink takes some of the bytes. The sink does not take several slices at once, or it takes
-- all that it is given. A shutdown sends nothing.
pub record IsReadySink {W : Type 0} (sink : AsyncWrite W) (sent : W → List ℕ) : Type 0 where
  pub takes :
      (bytes : List ℕ) (w : W)
      → 0 < length bytes
      → (n : ℕ) × (w' : W) × (sink.poll_write bytes w ≡ (ready n, w'))
        × (0 < n)
        × (n ≤ length bytes)
        × (sent w' ≡ sent w ++ take n bytes)
  pub narrow_or_whole : ((w : W) → sink.is_write_vectored w ≡ false) ⊎ IsWhole sink sent
  pub shuts : (w : W) → (w' : W) × (sink.poll_shutdown w ≡ (ready tt, w')) × (sent w' ≡ sent w)

pub and_false : (b : Bool) → (b && false) ≡ false
and_false true = refl
and_false false = refl

module _ {W : Type 0} (tar : Tar) (sink : AsyncWrite W) where
  pub make_room_flushes :
      (n : ℕ) (a : Archive W)
      → IsValid a.buf
      → capacity a.buf - a.buf.cap < n
      → make_room tar sink n false a ≡ poll_flush_buffered tar sink a
  unfolding make_room remaining
  make_room_flushes n a v short =
      let inside = v.inside in
      let some_room : leb a.buf.cap (capacity a.buf) ≡ true = ground arith in
      let test : ltb (capacity a.buf - a.buf.cap) n ≡ true = ground arith in rw (some_room, test)

module _ {W : Type 0} (tar : Tar) (sink : AsyncWrite W) (sent : W → List ℕ)
    (law : IsReadySink sink sent) where
  flush_loop_ready :
      (fuel : ℕ) (a : Archive W)
      → IsValid a.buf
      → length (contents a.buf) < fuel
      → (b : Buf) × (w : W) × (flush_loop tar sink fuel a
          ≡ (ready tt, record a { buf = b; io = w }))
        × IsValid b
        × (capacity b ≡ capacity a.buf)
        × (sent w ≡ sent a.io ++ contents a.buf)
  flush_loop_ready zero a v h = absurd (omega arith)
  flush_loop_ready (suc fuel) a v h = elim (Bool-cases (length (contents a.buf) == 0)) [
    | inl z ↦
        let empty : contents a.buf ≡ [] = nil_of (contents a.buf) z in
        (
          a.buf,
          a.io,
          flush_loop_done tar sink a fuel v z,
          v,
          refl,
          sym (ap (λ (xs : List ℕ). sent a.io ++ xs) empty ∙ append-nil (sent a.io)),
        )
    | inr z ↦
        let (n, w, sends, some_bytes, le, kept) = law.takes (contents a.buf) a.io (ground arith) in
        let b = record a { buf = after_send a.buf n; io = w } in
        let (valid, rest) =
          after_read_lem (record (shown a.buf) { cursor = a.buf.pos + n }) n v refl le in
        let test : (n == 0) ≡ false = ground arith in
        let moves : flush_round tar sink a ≡ (ready tt, b) =
          flush_round_lem tar sink a v sends
          ∙ rw test (commits_read_lem tar sink (record a { io = w }) n v le) in
        let (c, w', ends, valid', sized, kept') =
          flush_loop_ready fuel b valid
            (omega (arith, ap length rest, length-drop n (contents a.buf))) in
        (
          c,
          w',
          flush_loop_step tar sink a fuel v z
              ∙ (pass_of (λ _. flush_loop tar sink fuel) moves ∙ ends),
          valid',
          sized,
          kept'
              ∙ rw (kept, rest)
                  (append_assoc (sent a.io) (take n (contents a.buf)) (drop n (contents a.buf))
                    ∙ ap (λ (xs : List ℕ). sent a.io ++ xs) (take-append-drop n (contents a.buf))),
        )
  ]

  -- A flush ends with the buffer empty, and all of its room there again.
  pub flush_ready :
      (a : Archive W)
      → IsValid a.buf
      → (b : Buf) × (w : W) × (poll_flush_buffered tar sink a
          ≡ (ready tt, record a { buf = b; io = w }))
        × IsValid b
        × (capacity b ≡ capacity a.buf)
        × (contents b ≡ [])
        × (b.cap ≡ 0)
        × (sent w ≡ sent a.io ++ contents a.buf)
  unfolding poll_flush_buffered
  flush_ready a v =
      let len = length-contents v in
      let (b, w, ends, valid, sized, kept) =
        flush_loop_ready usize_size a v
          (let inside = v.inside in let allocated = v.allocated in omega arith) in
      let (cleared, none_left) = clear_lem valid in
      (
        clear b,
        w,
        pass_of (λ _. modify (λ (c : Archive W). record c { buf = clear c.buf })) ends,
        cleared,
        sized,
        none_left,
        refl,
        kept,
      )

  -- What a call ends with that has written just `bytes`.
  abbrev pub Ended : {A : Type 0} → A → List ℕ → Archive W → State → Poll A × Archive W → Type 0
  Ended x bytes a t result =
      (b : Buf) × (w : W) × (result ≡ (ready x, record { buf = b; state = t; io = w }))
      × IsValid b
      × (capacity b ≡ capacity a.buf)
      × (sent w ++ contents b ≡ (sent a.io ++ contents a.buf) ++ bytes)
