-- ===== src/Write/Vectored.antt =====
-- `Archive::poll_write_vectored` of src/write/mod.rs with any buffer and any outcome of the sink.
use tario.Prelude.{
  ℕ, ◌≤◌, ◌≡◌, refl, sym, ap, ◌∙◌, inl, inr, Bool, true, false, Option, List, ◌++◌, arith, ◌==◌,
  if◌then◌else◌, Bool-cases, length, take, drop, is_empty, concat, length-take, length-drop,
  take-append-drop, take_all, is_empty-some,
}
use mathlib.Core.Path.{subst}
use tario.Io.Result.{ok}
use tario.Io.Poll.{Call, Poll, ready, failed, pending, panicked, pass, done, asks, ◌>>=◌, ◌>>◌}
use tario.Block.{Tar, Header}
use tario.Buffer.Contents.{IsValid, contents}
use tario.Slices.{Prefix, prefix_iter, Slice, bytes_len, slices_take_prefix, usize_max}
use tario.Slices.Iter.{slices_take_prefix_lem, prefix_take_prefix_lem, bytes_len_lem}
use tario.State.{State, take_slices, take_until, stops}
use tario.State.Chunks.{take_slices-eq-take_until}
use tario.State.Front.{take_until_front}
use tario.Archive.{Archive}
use tario.Write.Calls.{
  AsyncWrite, buffer_up, pass_through, make_room, can_pass_through, state_after, set_state,
  poll_write_vectored,
}
use tario.Write.Flush.{Sends}
use tario.Write.Room.{MadeRoom, make_room-MadeRoom}
use tario.Write.Puts.{Puts, buffer_up-Puts, pass_through-Puts}

-- A write that also moves the state over the bytes that it counts, and over no others.
abbrev pub Writes :
    {W : Type 0}
    → Tar
    → (W → List ℕ)
    → Option Header
    → List ℕ
    → Archive W
    → Poll ℕ × Archive W
    → Type 0
Writes tar sent header bytes a (ready k, b) =
    (k ≤ length bytes)
    × (sent b.io ++ contents b.buf ≡ (sent a.io ++ contents a.buf) ++ take k bytes)
    × IsValid b.buf
    × (take_until tar a.state stops (take k bytes) header ≡ ok (b.state, k))
Writes tar sent header bytes a (failed e, b) =
    (sent b.io ++ contents b.buf ≡ sent a.io ++ contents a.buf)
    × IsValid b.buf
    × (b.state ≡ a.state)
Writes tar sent header bytes a (pending, b) =
    (sent b.io ++ contents b.buf ≡ sent a.io ++ contents a.buf)
    × IsValid b.buf
    × (b.state ≡ a.state)
Writes tar sent header bytes a (panicked p, b) = ⊥

module _ {W : Type 0} (tar : Tar) (sink : AsyncWrite W) where
  -- The end of `poll_write_vectored`.
  abbrev pub ending : State → Prefix → ℕ → Option Header → ℕ → Call (Archive W) ℕ
  ending t p n header k =
      asks (λ (a : Archive W). state_after tar sink a.state p n (t, n) k header)
      >>= (λ s. set_state tar sink s >> done k)

  pub write_parts :
      (a : Archive W) (bufs : List Slice) (max : ℕ) (header : Option Header) (p : Prefix) (n : ℕ)
      (t : State)
      → slices_take_prefix bufs max ≡ ok p
      → bytes_len (prefix_iter p) ≡ n
      → take_slices tar a.state (prefix_iter p) header ≡ ok (t, n)
      → poll_write_vectored tar sink bufs max header a
        ≡ pass (make_room tar sink n (can_pass_through tar sink n a) a) (λ _.
          (if can_pass_through tar sink n a
            then pass_through tar sink p n
            else buffer_up tar sink p)
          >>= ending t p n header)
  unfolding poll_write_vectored
  write_parts a bufs max header p n t cut size taken =
      let test : (n == n) ≡ true = ground arith in rw (cut, size, taken, test)

  -- The state after a part of what was checked.
  state_after_lem :
      (p : Prefix) (s t : State) (header : Option Header) (k : ℕ)
      → k ≤ length (concat (prefix_iter p))
      → take_until tar s stops (concat (prefix_iter p)) header
        ≡ ok (t, length (concat (prefix_iter p)))
      → (u : State) × (state_after tar sink s p
            (length (concat (prefix_iter p)))
            (t, length (concat (prefix_iter p)))
            k
            header
          ≡ ok u)
        × (take_until tar s stops (take k (concat (prefix_iter p))) header ≡ ok (u, k))
  unfolding state_after
  state_after_lem p s t header k fits taken =
      let bytes = concat (prefix_iter p) in
      elim (Bool-cases (k == length bytes)) [
        | inl z ↦
            let all : k ≡ length bytes = ground arith in
            (
              t,
              rw z refl,
              ap (λ (xs : List ℕ). take_until tar s stops xs header)
                    (take_all k bytes (omega arith))
                  ∙ (taken ∙ ap (λ (j : ℕ). ok (t, j)) (sym all)),
            )
        | inr z ↦
            let (q, cut, front) = prefix_take_prefix_lem p k in
            let short : length (take k bytes) ≡ k = omega (arith, length-take k bytes) in
            let more : is_empty (drop k bytes) ≡ false =
              is_empty-some (drop k bytes) (ground (arith, length-drop k bytes)) in
            let (u, run) =
              take_until_front tar header s (take k bytes) (drop k bytes) {t = t} more (
                ap (λ (xs : List ℕ). take_until tar s stops xs header) (take-append-drop k bytes)
                ∙ (taken
                    ∙ ap (λ (xs : List ℕ). ok (t, length xs)) (sym (take-append-drop k bytes)))) in
            let run' : take_until tar s stops (take k bytes) header ≡ ok (u, k) =
              run ∙ ap (λ (j : ℕ). ok (u, j)) short in
            let slices : take_slices tar s (prefix_iter q) header ≡ ok (u, k) =
              take_slices-eq-take_until tar header s (prefix_iter q)
              ∙ (ap (λ (xs : List ℕ). take_until tar s stops xs header) front ∙ run') in
            let test : (k == k) ≡ true = ground arith in (u, rw (z, cut, slices, test) refl, run')
      ]

  module _ (sent : W → List ℕ)
      (law : (bytes : List ℕ) (w : W) → Sends sent bytes w (sink.poll_write bytes w))
      (law' : (slices : List Slice) (w : W)
        → Sends sent (concat slices) w (sink.poll_write_vectored slices w)) where
    module _ (p : Prefix) (t : State) (header : Option Header) (a : Archive W)
        (taken : take_until tar a.state stops (concat (prefix_iter p)) header
          ≡ ok (t, length (concat (prefix_iter p)))) where
      put-Writes :
          (b : Archive W)
          → (sent b.io ++ contents b.buf ≡ sent a.io ++ contents a.buf)
          → b.state ≡ a.state
          → (r : Poll ℕ × Archive W) → Puts sent (concat (prefix_iter p)) b r
          → Writes tar sent header
              (concat (prefix_iter p))
              a
              (pass r (ending t p (length (concat (prefix_iter p))) header))
      put-Writes b same still (ready k, c) (le, order, valid, still') =
          let (u, shows, run) = state_after_lem p a.state t header k le taken in
          let moved : c.state ≡ a.state = still' ∙ still in
          let final : pass (ready k, c) (ending t p (length (concat (prefix_iter p))) header)
              ≡ (ready k, record c { state = u }) =
            rw (moved, shows) in
          subst (Writes tar sent header (concat (prefix_iter p)) a) (sym final) (
            le,
            order ∙ ap (λ (xs : List ℕ). xs ++ take k (concat (prefix_iter p))) same,
            valid,
            run,
          )
      put-Writes b same still (failed e, c) (order, valid, still') =
          (order ∙ same, valid, still' ∙ still)
      put-Writes b same still (pending, c) (order, valid, still') =
          (order ∙ same, valid, still' ∙ still)
      put-Writes b same still (panicked x, c) never = absurd never

      MadeRoom-Writes :
          (through : Bool) (r : Poll (Unit {0}) × Archive W)
          → MadeRoom sent through a r
          → Writes tar sent header (concat (prefix_iter p)) a (
              pass r (λ _.
                (if through
                  then pass_through tar sink p (length (concat (prefix_iter p)))
                  else buffer_up tar sink p)
                >>= ending t p (length (concat (prefix_iter p))) header))
      MadeRoom-Writes true (ready x, b) (same, valid, still, empty) =
          put-Writes b same still (pass_through tar sink p (length (concat (prefix_iter p))) b) (
            pass_through-Puts tar sink sent law law' p b valid (empty refl)
              (sink.poll_write_vectored p.slices b.io) refl (law' p.slices b.io))
      MadeRoom-Writes false (ready x, b) (same, valid, still, empty) =
          put-Writes b same still (buffer_up tar sink p b) (buffer_up-Puts tar sink sent p b valid)
      MadeRoom-Writes through (failed e, b) h = h
      MadeRoom-Writes through (pending, b) h = h
      MadeRoom-Writes through (panicked x, b) never = absurd never

    -- Any write of slices, of which the first `max` bytes fit the state, keeps the order of the bytes
    -- and loses none, on a valid buffer and on every outcome of the sink, buffered or passed
    -- through: the bytes that it counts come, in order, behind all that were sent or buffered before,
    -- and the state has moved over just these; where it is pending or fails, it counts none and the
    -- state is as it was. It does not panic.
    pub poll_write_vectored-Writes :
        (a : Archive W) (bufs : List Slice) (max : ℕ) (header : Option Header) (t : State)
        → IsValid a.buf
        → length (take max (concat bufs)) ≤ usize_max
        → take_until tar a.state stops (take max (concat bufs)) header
          ≡ ok (t, length (take max (concat bufs)))
        → Writes tar sent header
            (take max (concat bufs))
            a
            (poll_write_vectored tar sink bufs max header a)
    poll_write_vectored-Writes a bufs max header t v small taken =
        let (p, cut, front) = slices_take_prefix_lem bufs max in
        let bytes = concat (prefix_iter p) in
        let taken' : take_until tar a.state stops bytes header ≡ ok (t, length bytes) =
          subst (λ (xs : List ℕ). take_until tar a.state stops xs header ≡ ok (t, length xs))
            (sym front) taken in
        let size : bytes_len (prefix_iter p) ≡ length bytes =
          bytes_len_lem (prefix_iter p) ∙ omega (arith, ap length front) in
        let through = can_pass_through tar sink (length bytes) a in
        subst
          (λ (xs : List ℕ).
            Writes tar sent header xs a (poll_write_vectored tar sink bufs max header a))
          front
          (subst (Writes tar sent header bytes a)
            (sym (
              write_parts a bufs max header p (length bytes) t cut size
                (take_slices-eq-take_until tar header a.state (prefix_iter p) ∙ taken')))
            (MadeRoom-Writes p t header a taken' through
              (make_room tar sink (length bytes) through a)
              (make_room-MadeRoom tar sink sent law (length bytes) through a v)))
