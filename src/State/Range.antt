-- ===== src/State/Range.antt =====
-- The numbers in the states of src/shared/state.rs stay in the types of their fields.
use tario.Prelude.{
  ℕ, zero, suc, ◌≤◌, ◌<◌, ◌≡◌, sym, ◌∙◌, inl, inr, Option, List, [], arith, drop, concat,
}
use tario.Io.Result.{ok, Result-cases}
use mathlib.Core.Path.{subst}
use tario.State.{
  stops, take_until, take_slices, take_marker, State, expecting_header, receiving_header,
  received_header, receiving_data, received_data, aligning_data, aligned_data, receiving_eof,
  received_eof, next, entry_size, next_multiple_of_block, u64_size,
}
use tario.State.Until.{measure, next-measure, take_until-cases}
use tario.State.Chunks.{pos_of_drop, take_slices-eq-take_until}
use tario.Block.{Header, Tar, block_size}

-- What is left of a header or of an empty block is a `usize` of at most a block, what is left of the data
-- is a `u64`, and the padding is less than a block.
abbrev pub InRange : State → Type 0
InRange expecting_header = Unit {0}
InRange (receiving_header rem _) = rem ≤ block_size
InRange received_header = Unit {0}
InRange (receiving_data rem) = rem < u64_size
InRange received_data = Unit {0}
InRange (aligning_data rem) = rem < block_size
InRange aligned_data = Unit {0}
InRange (receiving_eof rem) = rem ≤ block_size
InRange received_eof = Unit {0}

module _ (tar : Tar) (hdr : Option Header)
    (sizes : (size : ℕ) → entry_size tar hdr ≡ ok size → size < u64_size) where
  pub next-InRange :
      (s : State) (buf : List ℕ) {t : State} {n : ℕ}
      → next tar s buf hdr ≡ ok (t, n)
      → InRange s
      → InRange t
  unfolding next next_multiple_of_block
  next-InRange expecting_header buf e h = ground arith
  next-InRange (receiving_header rem z) buf e h = ground arith
  next-InRange received_header buf e h = elim (Result-cases (entry_size tar hdr)) [
    | inl (size, e') ↦ let small = sizes size e' in ground arith
    | inr (inl (x, e')) ↦ ground arith
    | inr (inr (p, e')) ↦ ground arith
  ]
  next-InRange (receiving_data rem) buf e h = ground arith
  next-InRange received_data buf e h = ground arith
  next-InRange (aligning_data rem) buf e h = ground arith
  next-InRange aligned_data buf e h = ground arith
  next-InRange (receiving_eof rem) buf e h = ground arith
  next-InRange received_eof buf e h = ground arith

  until_below-InRange :
      (k : ℕ) (stop : List State) (s : State) (buf : List ℕ) {t : State} {n : ℕ}
      → measure s buf < k
      → take_until tar s stop buf hdr ≡ ok (t, n)
      → InRange s
      → InRange t
  until_below-InRange zero stop s buf m e h = absurd (omega arith)
  until_below-InRange (suc k) stop s buf m e h = elim (take_until-cases tar hdr stop s buf e) [
    | inl (e', _) ↦ next-InRange s buf e' h
    | inr (u, a, b, moved, more, later, count) ↦
        until_below-InRange k stop u (drop a buf)
          (omega (arith, next-measure tar hdr s buf moved (pos_of_drop a buf more))) later
          (next-InRange s buf moved h)
  ]

  pub take_marker-InRange :
      (s : State) {t : State} → take_marker tar s hdr ≡ ok t → InRange s → InRange t
  unfolding take_marker
  take_marker-InRange s {t} e h = elim (Result-cases (next tar s [] hdr)) [
    | inl ((u, n), e') ↦
        let moved : u ≡ t = ground arith in subst InRange moved (next-InRange s [] e' h)
    | inr (inl (x, e')) ↦ ground arith
    | inr (inr (p, e')) ↦ ground arith
  ]

  -- A run of `take_slices` that succeeds from numbers that fit the types of the fields ends with such
  -- numbers, where the sizes that headers state are of `u64`: what is left of a header or an empty block
  -- is at most a block, what is left of the data is a `u64`, and padding is less than a block.
  pub take_slices-InRange :
      (s : State) (bufs : List (List ℕ)) {t : State} {n : ℕ}
      → take_slices tar s bufs hdr ≡ ok (t, n)
      → InRange s
      → InRange t
  take_slices-InRange s bufs e h =
      until_below-InRange (suc (measure s (concat bufs))) stops s (concat bufs) (omega arith)
        (sym (take_slices-eq-take_until tar hdr s bufs) ∙ e) h
