-- ===== src/Slices/Buffers.antt =====
-- The byte buffers of slices in src/shared/slices.rs: `iter_buffers`, and the lengths of the parts.
use tario.Prelude.{ℕ, zero, suc, ◌≡◌, refl, ap, Option, none, some, List, [], ◌∷◌, length}
use tario.Slices.{Slice, Prefix, Suffix, SplitInner, prefix_iter, suffix_iter, bytes_len}

-- `iter_slices` of `&[IoSlice]`
abbrev pub slices_iter : List Slice → List Slice
slices_iter slices = slices

-- `IntoBuffersIter::next`: the bytes of the next slice, and the iterator behind it.
unfoldable pub buffers_next : List Slice → Option (List ℕ × List Slice)
buffers_next [] = none
buffers_next (slice ∷ slices) = some (slice, slices)

-- What an iterator of buffers gives: as `into_buffers` makes it of one of slices.
unfoldable pub buffers : ℕ → List Slice → List (List ℕ)
unfolding buffers_next
buffers zero slices = []
buffers (suc calls) slices = elim (buffers_next slices) [
  | none ↦ []
  | some (slice, others) ↦ slice ∷ buffers calls others
]

abbrev pub into_buffers : List Slice → List (List ℕ)
into_buffers slices = buffers (length slices) slices

-- `iter_buffers`, of `&[IoSlice]`, `Prefix` and `Suffix`
abbrev pub slices_iter_buffers : List Slice → List (List ℕ)
slices_iter_buffers slices = into_buffers (slices_iter slices)

abbrev pub prefix_iter_buffers : Prefix → List (List ℕ)
prefix_iter_buffers p = into_buffers (prefix_iter p)

abbrev pub suffix_iter_buffers : Suffix → List (List ℕ)
suffix_iter_buffers s = into_buffers (suffix_iter s)

-- `Slices::bytes_len`, at `Prefix`.
abbrev pub prefix_bytes_len : Prefix → ℕ
prefix_bytes_len p = bytes_len (prefix_iter p)

-- `Split::remainder`
abbrev pub remainder : SplitInner → List ℕ
remainder p = p.remainder

-- The buffers are the bytes of the slices, in order.
pub into_buffers_lem : (slices : List Slice) → into_buffers slices ≡ slices
unfolding buffers buffers_next
into_buffers_lem [] = refl
into_buffers_lem (slice ∷ slices) =
    ap (λ (later : List Slice). slice ∷ later) (into_buffers_lem slices)
