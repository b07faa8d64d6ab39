-- ===== src/Write/Flush.antt =====
-- `Archive::poll_flush_buffered` of src/write/mod.rs against a sink that says what it has been sent.
use tario.Prelude.{
  ℕ, zero, suc, ◌+◌, ◌≤◌, ◌<◌, ◌≡◌, refl, sym, ap, ◌∙◌, inl, inr, Bool, true, false, List, [], ◌∷◌,
  ◌++◌, append-nil, append_assoc, arith, ◌==◌, if◌then◌else◌, Bool-cases, length, take, drop,
  length-drop, take-append-drop,
}
use tario.Io.Result.{Result, ok, panic}
use tario.Io.Result
use mathlib.Core.Path.{subst}
use tario.Io.Poll.{
  modify, fail, of_result, fail, Poll, ready, failed, pending, panicked, Call, ◌>>◌, done, pass,
  pass_of,
}
use tario.Block.{Tar}
use tario.Buffer.{
  usize_size, Buf, after_read, buffered, region_bytes, region_is_empty, commit, clear,
}
use tario.Buffer.Contents.{
  IsValid, contents, length-contents, buffered_lem, commit_lem, after_read_lem, clear_lem, shown,
  region_is_empty_lem,
}
use tario.Archive.{Archive}
use tario.Write.Calls.{
  AsyncWrite, flush_round, flush_loop, commits_read, poll_flush_buffered, zero_write,
}

-- A poll of a sink with `bytes` that takes some first bytes of them, or none if it is not ready.
abbrev pub Sends : {W : Type 0} → (W → List ℕ) → List ℕ → W → Poll ℕ × W → Type 0
Sends sent bytes w (ready n, w') = (n ≤ length bytes) × (sent w' ≡ sent w ++ take n bytes)
Sends sent bytes w (failed e, w') = sent w' ≡ sent w
Sends sent bytes w (pending, w') = sent w' ≡ sent w
Sends sent bytes w (panicked p, w') = ⊥

-- What a flush ends with: if it is ready, nothing is buffered; it does not panic.
abbrev pub Flushed : Poll (Unit {0}) → List ℕ → Type 0
Flushed (ready _) left = left ≡ []
Flushed (failed e) left = Unit {0}
Flushed pending left = Unit {0}
Flushed (panicked p) left = ⊥

-- A call after which the bytes sent and the bytes buffered are together what they were before.
abbrev pub Keeps : {W : Type 0} → (W → List ℕ) → Archive W → Poll (Unit {0}) × Archive W → Type 0
Keeps sent a (r, a') =
    (sent a'.io ++ contents a'.buf ≡ sent a.io ++ contents a.buf)
    × IsValid a'.buf
    × (a'.state ≡ a.state)
    × Flushed r (contents a'.buf)

-- The buffer once `n` of its bytes are sent.
abbrev pub after_send : Buf → ℕ → Buf
after_send b n = after_read b (record (shown b) { cursor = b.pos + n })

pub nil_of : (xs : List ℕ) → (length xs == 0) ≡ true → xs ≡ []
nil_of [] h = refl
nil_of (x ∷ xs) h = absurd (ground arith)

drained_lem :
    {b : Buf}
    → IsValid b
    → Result.◌>>=◌ (buffered b) region_is_empty ≡ ok (length (contents b) == 0)
drained_lem {b} v =
    let (region, size, bytes) = buffered_lem v in
    rw (region, region_is_empty_lem (shown b) v refl v.ordered, length-contents v)

sends_of : {b : Buf} → IsValid b → Result.◌>>=◌ (buffered b) region_bytes ≡ ok (contents b)
sends_of v = let (region, size, bytes) = buffered_lem v in rw (region, bytes)

commits_of :
    {b : Buf} (n : ℕ)
    → IsValid b
    → n ≤ length (contents b)
    → Result.◌>>=◌ (buffered b) (λ r. commit r n) ≡ ok (record (shown b) { cursor = b.pos + n })
commits_of {b} n v fits =
    let (region, size, bytes) = buffered_lem v in
    let len = length-contents v in rw (region, commit_lem (shown b) n (omega arith))

module _ {W : Type 0} (tar : Tar) (sink : AsyncWrite W) where
  pub commits_read_lem :
      (a : Archive W) (n : ℕ)
      → IsValid a.buf
      → n ≤ length (contents a.buf)
      → commits_read tar sink n a ≡ (ready tt, record a { buf = after_send a.buf n })
  unfolding commits_read
  commits_read_lem a n v fits = rw (commits_read, commits_of n v fits)

  -- A round of the loop by the outcome of the sink's poll.
  pub flush_round_lem :
      (a : Archive W) {o : Poll ℕ × W}
      → IsValid a.buf
      → sink.poll_write (contents a.buf) a.io ≡ o
      → flush_round tar sink a
        ≡ pass
            (o.0, record a { io = o.1 })
            (λ n. if n == 0 then fail (zero_write tar sink) else commits_read tar sink n)
  unfolding flush_round
  flush_round_lem a v sends = rw (sends_of v, sends)

  pub flush_loop_step :
      (a : Archive W) (fuel : ℕ)
      → IsValid a.buf
      → (length (contents a.buf) == 0) ≡ false
      → flush_loop tar sink (suc fuel) a
        ≡ pass (flush_round tar sink a) (λ _. flush_loop tar sink fuel)
  unfolding flush_loop
  flush_loop_step a fuel v held =
      pass_of
        (λ drained. if drained then done tt else (flush_round tar sink >> flush_loop tar sink fuel))
        (ap (λ (r : Result Bool). (of_result r, a)) (drained_lem v ∙ ap ok held))

  pub flush_loop_done :
      (a : Archive W) (fuel : ℕ)
      → IsValid a.buf
      → (length (contents a.buf) == 0) ≡ true
      → flush_loop tar sink (suc fuel) a ≡ (ready tt, a)
  unfolding flush_loop
  flush_loop_done a fuel v none_left =
      pass_of
        (λ drained. if drained then done tt else (flush_round tar sink >> flush_loop tar sink fuel))
        (ap (λ (r : Result Bool). (of_result r, a)) (drained_lem v ∙ ap ok none_left))

  module _ (sent : W → List ℕ)
      (law : (bytes : List ℕ) (w : W) → Sends sent bytes w (sink.poll_write bytes w)) where
    -- A round and what comes after it, if that does the same for fewer bytes.
    flush_round-Keeps :
        (a : Archive W) (later : Call (Archive W) (Unit {0}))
        → IsValid a.buf
        → ((b : Archive W)
            → IsValid b.buf
            → length (contents b.buf) < length (contents a.buf)
            → Keeps sent b (later b))
        → (o : Poll ℕ × W) → sink.poll_write (contents a.buf) a.io ≡ o
        → Sends sent (contents a.buf) a.io o
        → Keeps sent a (pass (flush_round tar sink a) (λ _. later))
    flush_round-Keeps a later v hyp (ready zero, w) e (le, kept) =
        subst (λ r. Keeps sent a (pass r (λ _. later))) (sym (flush_round_lem a v e))
          (ap (λ (xs : List ℕ). xs ++ contents a.buf) (kept ∙ append-nil (sent a.io)), v, refl, tt)
    flush_round-Keeps a later v hyp (ready (suc n), w) e (le, kept) =
        let b = record a { buf = after_send a.buf (suc n); io = w } in
        let (valid, rest) =
          after_read_lem (record (shown a.buf) { cursor = a.buf.pos + suc n }) (suc n) v refl le in
        let test : (suc n == 0) ≡ false = ground arith in
        let moves : flush_round tar sink a ≡ (ready tt, b) =
          flush_round_lem a v e ∙ rw test (commits_read_lem (record a { io = w }) (suc n) v le) in
        let fewer : length (contents b.buf) < length (contents a.buf) =
          omega (arith, ap length rest, length-drop (suc n) (contents a.buf)) in
        let (same, final, still, ends) = hyp b valid fewer in
        let both : sent w ++ contents b.buf ≡ sent a.io ++ contents a.buf =
          rw (kept, rest)
            (append_assoc (sent a.io) (take (suc n) (contents a.buf))
                (drop (suc n) (contents a.buf))
              ∙ ap (λ (xs : List ℕ). sent a.io ++ xs)
                  (take-append-drop (suc n) (contents a.buf))) in
        subst (λ r. Keeps sent a (pass r (λ _. later))) (sym moves)
          (same ∙ both, final, still, ends)
    flush_round-Keeps a later v hyp (failed x, w) e kept =
        subst (λ r. Keeps sent a (pass r (λ _. later))) (sym (flush_round_lem a v e))
          (ap (λ (xs : List ℕ). xs ++ contents a.buf) kept, v, refl, tt)
    flush_round-Keeps a later v hyp (pending, w) e kept =
        subst (λ r. Keeps sent a (pass r (λ _. later))) (sym (flush_round_lem a v e))
          (ap (λ (xs : List ℕ). xs ++ contents a.buf) kept, v, refl, tt)
    flush_round-Keeps a later v hyp (panicked p, w) e kept = absurd kept

    flush_loop-Keeps :
        (fuel : ℕ) (a : Archive W)
        → IsValid a.buf
        → length (contents a.buf) < fuel
        → Keeps sent a (flush_loop tar sink fuel a)
    flush_loop-Keeps zero a v h = absurd (omega arith)
    flush_loop-Keeps (suc fuel) a v h = elim (Bool-cases (length (contents a.buf) == 0)) [
      | inl z ↦
          let empty : contents a.buf ≡ [] = nil_of (contents a.buf) z in
          subst (Keeps sent a) (sym (flush_loop_done a fuel v z)) (refl, v, refl, empty)
      | inr z ↦ subst (Keeps sent a) (sym (flush_loop_step a fuel v z)) (
          flush_round-Keeps a (flush_loop tar sink fuel) v
            (λ b w fewer. flush_loop-Keeps fuel b w (omega arith))
            (sink.poll_write (contents a.buf) a.io) refl (law (contents a.buf) a.io))
    ]

    clear-Keeps :
        (a : Archive W) (r : Poll (Unit {0}) × Archive W)
        → Keeps sent a r
        → Keeps sent a (pass r (λ _. modify (λ b. record b { buf = clear b.buf })))
    clear-Keeps a (ready x, b) (same, valid, still, empty) =
        let (cleared, none_left) = clear_lem valid in
        (ap (λ (xs : List ℕ). sent b.io ++ xs) (sym empty) ∙ same, cleared, still, none_left)
    clear-Keeps a (failed e, b) h = h
    clear-Keeps a (pending, b) h = h
    clear-Keeps a (panicked p, b) h = h

    -- A flush keeps the order of the bytes and loses none: at its end, be it ready, pending or failed,
    -- the bytes that the sink has taken and those still buffered are together what they were before. If
    -- it is ready, none is left in the buffer. It never panics and its loop ends, whatever number of
    -- bytes the sink takes at a time.
    pub poll_flush_buffered-Keeps :
        (a : Archive W) → IsValid a.buf → Keeps sent a (poll_flush_buffered tar sink a)
    unfolding poll_flush_buffered
    poll_flush_buffered-Keeps a v = clear-Keeps a (flush_loop tar sink usize_size a) (
        flush_loop-Keeps usize_size a v (
          let len = length-contents v in
          let inside = v.inside in let allocated = v.allocated in omega arith))
