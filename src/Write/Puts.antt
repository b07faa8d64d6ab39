-- ===== src/Write/Puts.antt =====
-- The two branches of `Archive::poll_write_vectored` of src/write/mod.rs that write: into the buffer,
-- and past it.
use tario.Prelude.{
  ℕ, ◌+◌, ◌-◌, ◌≤◌, min, ◌≡◌, refl, sym, ap, ◌∙◌, inl, inr, List, [], ◌++◌, append-nil,
  append_assoc, arith, ◌==◌, Bool-cases, length, take, concat, length-append, take_all,
  take-append_le, take-append_add,
}
use mathlib.Core.Path.{subst}
use tario.Io.Poll.{Poll, ready, failed, pending, panicked}
use tario.Block.{Tar}
use tario.Buffer.{after_write, capacity}
use tario.Buffer.Contents.{IsValid, contents, fill_from_slices_lem, take-min}
use tario.Slices.{Prefix, prefix_iter, Slice}
use tario.Archive.{Archive}
use tario.Write.Calls.{AsyncWrite, buffer_up, pass_through, add_remainder}
use tario.Write.Flush.{Sends}
use tario.Write.Through.{whole_lem, add_remainder_lem, pass_through_lem}

-- A write of the first of `bytes`: as many as it counts come behind those that were sent or buffered
-- before it, in order. It does not panic.
abbrev pub Puts : {W : Type 0} → (W → List ℕ) → List ℕ → Archive W → Poll ℕ × Archive W → Type 0
Puts sent bytes a (ready k, b) =
    (k ≤ length bytes)
    × (sent b.io ++ contents b.buf ≡ (sent a.io ++ contents a.buf) ++ take k bytes)
    × IsValid b.buf
    × (b.state ≡ a.state)
Puts sent bytes a (failed e, b) =
    (sent b.io ++ contents b.buf ≡ sent a.io ++ contents a.buf)
    × IsValid b.buf
    × (b.state ≡ a.state)
Puts sent bytes a (pending, b) =
    (sent b.io ++ contents b.buf ≡ sent a.io ++ contents a.buf)
    × IsValid b.buf
    × (b.state ≡ a.state)
Puts sent bytes a (panicked p, b) = ⊥

module _ {W : Type 0} (tar : Tar) (sink : AsyncWrite W) (sent : W → List ℕ) where
  pub buffer_up-Puts :
      (p : Prefix) (a : Archive W)
      → IsValid a.buf
      → Puts sent (concat (prefix_iter p)) a (buffer_up tar sink p a)
  unfolding buffer_up
  buffer_up-Puts p a v =
      let bytes = concat (prefix_iter p) in
      let room = capacity a.buf - a.buf.cap in
      let (r, e, valid, held, sized) = fill_from_slices_lem (prefix_iter p) v in
      let same : contents (after_write a.buf r)
          ≡ contents a.buf ++ take (min (length bytes) room) bytes =
        held ∙ ap (λ (xs : List ℕ). contents a.buf ++ xs) (sym (take-min room bytes)) in
      let shows : buffer_up tar sink p a
          ≡ (ready (min (length bytes) room), record a { buf = after_write a.buf r }) =
        rw (buffer_up, e) in
      subst (Puts sent bytes a) (sym shows) (
        omega arith,
        ap (λ (xs : List ℕ). sent a.io ++ xs) same
            ∙ sym
                (append_assoc (sent a.io) (contents a.buf) (take (min (length bytes) room) bytes)),
        valid,
        refl,
      )

  -- What is sent while nothing is buffered.
  behind :
      (a : Archive W) (sent_now xs : List ℕ)
      → contents a.buf ≡ []
      → sent_now ≡ sent a.io ++ xs
      → sent_now ++ contents a.buf ≡ (sent a.io ++ contents a.buf) ++ xs
  behind a sent_now xs none_left kept = rw (none_left, append-nil, append-nil) kept

  module _ (law : (bytes : List ℕ) (w : W) → Sends sent bytes w (sink.poll_write bytes w))
      (law' : (slices : List Slice) (w : W)
        → Sends sent (concat slices) w (sink.poll_write_vectored slices w))
      (p : Prefix) (a : Archive W) (v : IsValid a.buf) (none_left : contents a.buf ≡ []) where
    take_front :
        (k : ℕ)
        → k ≤ length (concat p.slices)
        → take k (concat (prefix_iter p)) ≡ take k (concat p.slices)
    take_front k h = ap (take k) (whole_lem p) ∙ take-append_le k (concat p.slices) p.remainder h

    take_more :
        (k m : ℕ)
        → k ≡ length (concat p.slices)
        → take (k + m) (concat (prefix_iter p)) ≡ concat p.slices ++ take m p.remainder
    take_more k m all =
        ap (take (k + m)) (whole_lem p)
        ∙ (ap (λ (j : ℕ). take (j + m) (concat p.slices ++ p.remainder)) all
            ∙ take-append_add (concat p.slices) p.remainder m)

    -- The slices are sent, and none of the remainder.
    sent_front :
        (k : ℕ) (w w' : W)
        → k ≡ length (concat p.slices)
        → sent w ≡ sent a.io ++ concat p.slices
        → sent w' ≡ sent w
        → Puts sent (concat (prefix_iter p)) a (ready k, record a { io = w' })
    sent_front k w w' all kept kept' =
        let sum = length-append (concat p.slices) p.remainder in
        let len = ap length (whole_lem p) in
        (
          omega arith,
          behind a (sent w') (take k (concat (prefix_iter p))) none_left (
              kept'
              ∙ (kept
                  ∙ ap (λ (xs : List ℕ). sent a.io ++ xs)
                      (sym (
                        take_front k (omega arith) ∙ take_all k (concat p.slices) (omega arith))))),
          v,
          refl,
        )

    -- The slices are sent, and the remainder is tried.
    add_remainder-Puts :
        (k : ℕ) (w : W)
        → k ≡ length (concat p.slices)
        → sent w ≡ sent a.io ++ concat p.slices
        → (o : Poll ℕ × W) → sink.poll_write p.remainder w ≡ o
        → Sends sent p.remainder w o
        → Puts sent (concat (prefix_iter p)) a (add_remainder tar sink p k (record a { io = w }))
    add_remainder-Puts k w all kept (ready m, w') e (le, kept') =
        let sum = length-append (concat p.slices) p.remainder in
        let len = ap length (whole_lem p) in
        subst (Puts sent (concat (prefix_iter p)) a)
          (sym (add_remainder_lem tar sink p a k w (ready m, w') e))
          (
            omega arith,
            behind a (sent w') (take (k + m) (concat (prefix_iter p))) none_left (
                kept'
                ∙ (ap (λ (xs : List ℕ). xs ++ take m p.remainder) kept
                    ∙ (append_assoc (sent a.io) (concat p.slices) (take m p.remainder)
                        ∙ ap (λ (xs : List ℕ). sent a.io ++ xs) (sym (take_more k m all))))),
            v,
            refl,
          )
    add_remainder-Puts k w all kept (failed x, w') e kept' =
        subst (Puts sent (concat (prefix_iter p)) a)
          (sym (add_remainder_lem tar sink p a k w (failed x, w') e))
          (sent_front k w w' all kept kept')
    add_remainder-Puts k w all kept (pending, w') e kept' =
        subst (Puts sent (concat (prefix_iter p)) a)
          (sym (add_remainder_lem tar sink p a k w (pending, w') e))
          (sent_front k w w' all kept kept')
    add_remainder-Puts k w all kept (panicked x, w') e kept' = absurd kept'

    -- With nothing in the buffer, what is passed through comes behind what was sent before.
    pub pass_through-Puts :
        (o : Poll ℕ × W)
        → sink.poll_write_vectored p.slices a.io ≡ o
        → Sends sent (concat p.slices) a.io o
        → Puts sent
            (concat (prefix_iter p))
            a
            (pass_through tar sink p (length (concat (prefix_iter p))) a)
    pass_through-Puts (ready k, w) e (le, kept) =
        let sum = length-append (concat p.slices) p.remainder in
        let len = ap length (whole_lem p) in
        subst (Puts sent (concat (prefix_iter p)) a) (sym (pass_through_lem tar sink p a e))
          (elim (Bool-cases (k == length (concat p.slices))) [
            | inl z ↦
                let all : k ≡ length (concat p.slices) = ground arith in
                rw z (
                  add_remainder-Puts k w all
                    (kept
                      ∙ ap (λ (xs : List ℕ). sent a.io ++ xs)
                          (take_all k (concat p.slices) (omega arith)))
                    (sink.poll_write p.remainder w) refl (law p.remainder w))
            | inr z ↦ rw z (
              omega arith,
              behind a (sent w) (take k (concat (prefix_iter p))) none_left
                  (kept ∙ ap (λ (xs : List ℕ). sent a.io ++ xs) (sym (take_front k le))),
              v,
              refl,
            )
          ])
    pass_through-Puts (failed x, w) e kept =
        subst (Puts sent (concat (prefix_iter p)) a) (sym (pass_through_lem tar sink p a e))
          (ap (λ (xs : List ℕ). xs ++ contents a.buf) kept, v, refl)
    pass_through-Puts (pending, w) e kept =
        subst (Puts sent (concat (prefix_iter p)) a) (sym (pass_through_lem tar sink p a e))
          (ap (λ (xs : List ℕ). xs ++ contents a.buf) kept, v, refl)
    pass_through-Puts (panicked x, w) e kept = absurd kept
