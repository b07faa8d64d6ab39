-- ===== src/Tests/Parts.antt =====
-- Runs of the block, the buffer and the slices.
use tario.Prelude.{
  ℕ, ◌≤◌, ◌≡◌, refl, ◌≢◌, List, [], ◌∷◌, ◌++◌, arith, take, replicate, concat, length-replicate,
}
use tario.Io.Error.{checksum}
use tario.Io.Result.{ok, err}
use tario.Block.{calc_cksum, as_header}
use tario.Block.Cksum.{all_bytes, calc_cksum_le, as_header_damaged}
use tario.Buffer.{Region, capacity, available, after_write, fill_from_slices, Buf}
use tario.Buffer.Queue.{
  Op, fills, reads, clears, filled, gave, cleared, run, replay, queue, queue_of, run-replay,
}
use tario.Buffer.Contents.{IsValid, contents, fill_from_slices_lem}
use tario.Slices.{
  Slice, Prefix, from_parts, prefix_iter, suffix_iter, find_split, slices_split_at_byte_offset,
  prefix_split_at_byte_offset,
}
use tario.Slices.Split.{SplitsAt, slices_split_at_byte_offset_lem}
use tario.Slices.Iter.{prefix_split-drops_remainder}
use tario.Tests.Samples.{tar, buf, buf-IsValid}

abbrev zeros : ℕ → List ℕ
zeros n = replicate n 0

calc_cksum_le_example : (256 ≤ calc_cksum (zeros 512)) × (calc_cksum (zeros 512) ≤ 128776)
unfolding all_bytes
calc_cksum_le_example = calc_cksum_le (zeros 512) (length-replicate {A = ℕ} 512 0) refl

-- A header with a one in front, for which 257 is the sum with the field as spaces.
abbrev stamped : List ℕ → List ℕ
stamped field = (1 ∷ zeros 147) ++ (field ++ zeros 356)

as_header_damaged_example :
    as_header tar ((1 ∷ zeros 147) ++ (zeros 8 ++ ([] ++ (5 ∷ zeros 355))))
    ≡ err (checksum 257 (calc_cksum ((1 ∷ zeros 147) ++ (zeros 8 ++ ([] ++ (5 ∷ zeros 355))))))
unfolding as_header calc_cksum
as_header_damaged_example =
    as_header_damaged tar (1 ∷ zeros 147) (zeros 8) [] (zeros 355) 0 5 257 refl refl
      (λ e. absurd (omega arith)) refl refl refl

fill_from_slices_lem_example :
    (r : Region) × (fill_from_slices (available buf) ((4 ∷ []) ∷ (5 ∷ 6 ∷ []) ∷ []) ≡ ok (r, 1))
    × IsValid (after_write buf r)
    × (contents (after_write buf r) ≡ contents buf ++ take 1 (4 ∷ 5 ∷ 6 ∷ []))
    × (capacity (after_write buf r) ≡ 5)
fill_from_slices_lem_example = fill_from_slices_lem ((4 ∷ []) ∷ (5 ∷ 6 ∷ []) ∷ []) buf-IsValid

-- More than there is room for, a read of two bytes, and a fill of the cleared buffer.
abbrev calls : List Op
calls = fills ((4 ∷ []) ∷ (5 ∷ 6 ∷ []) ∷ []) ∷ reads 2 ∷ clears ∷ fills ((7 ∷ []) ∷ []) ∷ []

run-replay_example :
    (b : Buf) × (run calls buf ≡ ok (b, filled 1 ∷ gave (1 ∷ 2 ∷ []) ∷ cleared ∷ filled 1 ∷ []))
    × IsValid b
    × (queue_of b ≡ queue (7 ∷ []) 4)
    × (capacity b ≡ 5)
unfolding replay
run-replay_example = run-replay calls buf buf-IsValid

abbrev two : List Slice
two = (1 ∷ 2 ∷ []) ∷ (3 ∷ 4 ∷ []) ∷ []

slices_split_at_byte_offset_lem_example :
    SplitsAt (1 ∷ 2 ∷ 3 ∷ 4 ∷ []) 3 (slices_split_at_byte_offset two 3)
slices_split_at_byte_offset_lem_example = slices_split_at_byte_offset_lem two 3

abbrev cut : Prefix
cut = from_parts two (5 ∷ [])

prefix_split-drops_remainder_example :
    (concat (prefix_iter (from_parts ((1 ∷ 2 ∷ []) ∷ []) (3 ∷ [])))
        ++ concat (suffix_iter (from_parts [] (4 ∷ [])))
      ≡ 1 ∷ 2 ∷ 3 ∷ 4 ∷ [])
    × (concat (prefix_iter (from_parts ((1 ∷ 2 ∷ []) ∷ []) (3 ∷ [])))
          ++ concat (suffix_iter (from_parts [] (4 ∷ [])))
        ≢ 1 ∷ 2 ∷ 3 ∷ 4 ∷ 5 ∷ [])
unfolding prefix_split_at_byte_offset find_split
prefix_split-drops_remainder_example =
    prefix_split-drops_remainder cut 3 (omega arith) (omega arith) refl
