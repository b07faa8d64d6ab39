-- ===== src/Write/Through.antt =====
-- What `poll_write_vectored` of src/write/mod.rs makes of the polls of the sink that slices are passed
-- through to.
use tario.Prelude.{
  ℕ, ◌+◌, ◌≡◌, ap, ◌∙◌, List, [], ◌∷◌, ◌++◌, append-nil, arith, ◌==◌, if◌then◌else◌, length, concat,
  length-append, concat-append,
}
use tario.Io.Result.{ok}
use tario.Io.Poll.{Poll, ready, failed, pending, panicked, pass, done}
use tario.Block.{Tar}
use tario.Slices.{Prefix, prefix_iter}
use tario.Archive.{Archive}
use tario.Write.Calls.{AsyncWrite, pass_through, add_remainder, checked_sub}

pub whole_lem : (p : Prefix) → concat (prefix_iter p) ≡ concat p.slices ++ p.remainder
whole_lem p =
    concat-append p.slices (p.remainder ∷ [])
    ∙ ap (λ (xs : List ℕ). concat p.slices ++ xs) (append-nil p.remainder)

module _ {W : Type 0} (tar : Tar) (sink : AsyncWrite W) (p : Prefix) (a : Archive W) where
  -- What `add_remainder` makes of the poll of the sink.
  abbrev pub by_outcome : ℕ → Poll ℕ × W → Poll ℕ × Archive W
  by_outcome k (ready m, w) = (ready (k + m), record a { io = w })
  by_outcome k (failed x, w) = (ready k, record a { io = w })
  by_outcome k (pending, w) = (ready k, record a { io = w })
  by_outcome k (panicked x, w) = (panicked x, record a { io = w })

  pub add_remainder_lem :
      (k : ℕ) (w : W) (o : Poll ℕ × W)
      → sink.poll_write p.remainder w ≡ o
      → add_remainder tar sink p k (record a { io = w }) ≡ by_outcome k o
  unfolding add_remainder
  add_remainder_lem k w (ready m, w') e = rw (add_remainder, e, ap (λ (o : Poll ℕ × W). o.1) e)
  add_remainder_lem k w (failed x, w') e = rw (add_remainder, e, ap (λ (o : Poll ℕ × W). o.1) e)
  add_remainder_lem k w (pending, w') e = rw (add_remainder, e, ap (λ (o : Poll ℕ × W). o.1) e)
  add_remainder_lem k w (panicked x, w') e = rw (add_remainder, e, ap (λ (o : Poll ℕ × W). o.1) e)

  pub pass_through_lem :
      {o : Poll ℕ × W}
      → sink.poll_write_vectored p.slices a.io ≡ o
      → pass_through tar sink p (length (concat (prefix_iter p))) a
        ≡ pass
            (o.0, record a { io = o.1 })
            (λ k. if k == length (concat p.slices) then add_remainder tar sink p k else done k)
  unfolding pass_through
  pass_through_lem e =
      let sum = length-append (concat p.slices) p.remainder in
      let len = ap length (whole_lem p) in
      let cut : checked_sub (length (concat (prefix_iter p))) (length p.remainder)
          ≡ ok (length (concat p.slices)) =
        ground arith in
      rw (cut, e)
