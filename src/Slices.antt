-- ===== src/Slices.antt =====
-- src/shared/slices.rs: sequences of byte slices, cut without copying. An `IoSlice` is the list of its
-- bytes, and an iterator is the list of what it still gives.
pub mod Split
pub mod Prefix
pub mod Iter
pub mod Buffers
use tario.Prelude.{
  ℕ, ◌+◌, ◌-◌, ◌^◌, Option, none, some, List, [], ◌∷◌, ◌++◌, ◌==◌, leb, min, if◌then◌else◌, length,
  take, drop,
}
use mathlib.Core.List.{foldl}
use tario.Io.Result.{Result, ok, err, panic, ◌>>=◌, ◌>>◌, slice_to, slice_from, out_of_range}

abbrev pub Slice : Type 0
Slice = List ℕ

-- `SplitInner`, and so `Prefix` and `Suffix`: whole slices, and a part of one.
pub record SplitInner : Type 0 where
  pub slices : List Slice
  pub remainder : Slice

abbrev pub Prefix : Type 0
Prefix = SplitInner

abbrev pub Suffix : Type 0
Suffix = SplitInner

-- `Split::from_parts`
abbrev pub from_parts : List Slice → Slice → SplitInner
from_parts slices remainder = record { slices = slices; remainder = remainder }

-- `Split::empty`
abbrev pub empty_split : SplitInner
empty_split = from_parts [] []

-- `Prefix::iter_slices`: the part of a slice comes last.
abbrev pub prefix_iter : Prefix → List Slice
prefix_iter p = p.slices ++ p.remainder ∷ []

-- `Suffix::iter_slices`: the part of a slice comes first.
abbrev pub suffix_iter : Suffix → List Slice
suffix_iter s = s.remainder ∷ s.slices

abbrev pub usize_max : ℕ
usize_max = 2 ^ 64 - 1

abbrev pub saturating_add : ℕ → ℕ → ℕ
saturating_add a b = min (a + b) usize_max

-- `IterSlicesExt::bytes_len`
unfoldable pub bytes_len : List Slice → ℕ
bytes_len = foldl (λ acc b. saturating_add acc (length b)) 0

-- The `find_map` of `split_at_byte_offset`: the slice in which the offset falls, and where in it.
unfoldable pub find_split : ℕ → ℕ → List Slice → Option (ℕ × ℕ)
find_split index rem [] = none
find_split index rem (slice ∷ slices) =
    let later = find_split (index + 1) (rem - length slice) slices in
    if leb (length slice) rem then later else some (index, rem)

-- `<[IoSlice]>::split_at`
unfoldable pub split_at : List Slice → ℕ → Result (List Slice × List Slice)
split_at slices index = do
  front ← slice_to slices index
  back ← slice_from slices index
  ok (front, back)

-- `buf[0]`
unfoldable pub first : List Slice → Result Slice
first [] = panic out_of_range
first (b ∷ bs) = ok b

-- The branch of `split_at_index` in which the first slice of `back` is cut.
unfoldable pub cut_first : List Slice → List Slice → ℕ → Result (Prefix × Suffix)
unfolding split_at first
cut_first front back offset = do
  (buf, rest) ← split_at back 1
  b ← first buf
  left ← slice_to b offset
  right ← slice_from b offset
  ok (from_parts front left, from_parts rest right)

-- `split_at_index` of `&[IoSlice]`
unfoldable pub slices_split_at_index : List Slice → ℕ → ℕ → Result (Prefix × Suffix)
unfolding split_at cut_first
slices_split_at_index slices index offset = do
  (front, back) ← split_at slices index
  if offset == 0 then ok (from_parts front [], from_parts back []) else cut_first front back offset

-- `as_prefix` of `&[IoSlice]`
abbrev pub slices_as_prefix : List Slice → Prefix
slices_as_prefix slices = from_parts slices []

-- The default `split_at_byte_offset`, at `&[IoSlice]`.
unfoldable pub slices_split_at_byte_offset : List Slice → ℕ → Result (Prefix × Suffix)
unfolding find_split slices_split_at_index
slices_split_at_byte_offset slices offset = elim (find_split 0 offset slices) [
  | none ↦ ok (slices_as_prefix slices, empty_split)
  | some (index, rem) ↦ slices_split_at_index slices index rem
]

-- `Slices::take_prefix` at `&[IoSlice]`
unfoldable pub slices_take_prefix : List Slice → ℕ → Result Prefix
slices_take_prefix slices len = do (front, back) ← slices_split_at_byte_offset slices len; ok front

-- The branch of `split_at_index` in which the index points to the remainder.
unfoldable pub cut_remainder : Prefix → ℕ → Result (Prefix × Suffix)
cut_remainder p offset = do
  left ← slice_to p.remainder offset
  right ← slice_from p.remainder offset
  ok (from_parts p.slices left, from_parts [] right)

-- `split_at_index` of `Prefix`
unfoldable pub prefix_split_at_index : Prefix → ℕ → ℕ → Result (Prefix × Suffix)
unfolding slices_split_at_index cut_remainder
prefix_split_at_index p index offset =
    if index == length p.slices
    then cut_remainder p offset
    else slices_split_at_index p.slices index offset

-- `as_prefix` of `Prefix`
abbrev pub prefix_as_prefix : Prefix → Prefix
prefix_as_prefix p = from_parts p.slices p.remainder

-- The default `split_at_byte_offset`, at `Prefix`.
unfoldable pub prefix_split_at_byte_offset : Prefix → ℕ → Result (Prefix × Suffix)
unfolding find_split prefix_split_at_index
prefix_split_at_byte_offset p offset = elim (find_split 0 offset (prefix_iter p)) [
  | none ↦ ok (prefix_as_prefix p, empty_split)
  | some (index, rem) ↦ prefix_split_at_index p index rem
]

-- `Slices::take_prefix` at `Prefix`
unfoldable pub prefix_take_prefix : Prefix → ℕ → Result Prefix
prefix_take_prefix p len = do (front, back) ← prefix_split_at_byte_offset p len; ok front

-- `TakeBytesLen::next`: the slice that it gives, and the iterator after it.
unfoldable pub take_next : List Slice × ℕ → Option (Slice × List Slice × ℕ)
take_next (bufs, rem) = if rem == 0 then none else elim bufs [
  | [] ↦ none
  | buf ∷ rest ↦
      if leb (length buf) rem
      then some (buf, rest, rem - length buf)
      else some (take rem buf, rest, 0)
]

-- The loop of `SkipBytesLen::next` over the slices that are skipped whole.
unfoldable pub skip_loop : List Slice → ℕ → Option (Slice × List Slice × ℕ)
skip_loop [] rem = none
skip_loop (buf ∷ rest) rem =
    let later = skip_loop rest (rem - length buf) in
    if leb (length buf) rem then later else some (drop rem buf, rest, 0)

-- `SkipBytesLen::next`
unfoldable pub skip_next : List Slice × ℕ → Option (Slice × List Slice × ℕ)
unfolding skip_loop
skip_next (bufs, rem) =
    if rem == 0
    then elim bufs [ [] ↦ none | buf ∷ rest ↦ some (buf, rest, 0) ]
    else skip_loop bufs rem
