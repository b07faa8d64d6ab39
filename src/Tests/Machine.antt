-- ===== src/Tests/Machine.antt =====
-- Runs of the state machine.
use tario.Prelude.{
  ℕ, ◌+◌, ◌≤◌, ◌≡◌, refl, ◌≢◌, none, some, List, [], ◌∷◌, ◌++◌, arith, length, replicate,
  length-replicate,
}
use tario.Io.Result.{ok, panic, no_fuel}
use tario.Block.{block_size}
use tario.State.{
  entry_size, contains, expecting_header, received_header, receiving_data, received_data,
  received_eof, next, take_slices, take_until, stops,
}
use tario.State.Next.{shift}
use tario.State.Until.{take_until-ne-no_fuel}
use tario.State.Chunks.{take_slices-eq-take_until}
use tario.State.Invariant.{IsPlaced, take_slices-IsPlaced}
use tario.State.Range.{InRange, take_slices-InRange}
use tario.State.Stream.{take_slices_next_header, take_slices_end}
use tario.State.Layout.{scan, scan_entry}
use tario.Tests.Samples.{tar, header}

take_slices-eq-take_until_example :
    take_slices tar expecting_header ((0 ∷ 1 ∷ []) ∷ [] ∷ (2 ∷ []) ∷ []) none
    ≡ take_until tar expecting_header stops (0 ∷ 1 ∷ 2 ∷ []) none
take_slices-eq-take_until_example =
    take_slices-eq-take_until tar none expecting_header ((0 ∷ 1 ∷ []) ∷ [] ∷ (2 ∷ []) ∷ [])

abbrev zeros : List ℕ
zeros = replicate 512 0

scan_entry_example :
    scan tar (some header) received_header ((1 ∷ 2 ∷ 3 ∷ []) ++ (replicate 509 0 ++ 7 ∷ []))
    ≡ shift
        (3 + length (replicate {A = ℕ} 509 0))
        (scan tar (some header) expecting_header (7 ∷ []))
unfolding entry_size
scan_entry_example =
    scan_entry tar (some header) (1 ∷ 2 ∷ 3 ∷ []) (replicate 509 0) (7 ∷ []) refl (omega arith)
      (length-replicate {A = ℕ} 509 0) refl

take_until-ne-no_fuel_example :
    take_until tar expecting_header stops (1 ∷ 2 ∷ []) none ≢ panic no_fuel
take_until-ne-no_fuel_example = take_until-ne-no_fuel tar none stops expecting_header (1 ∷ 2 ∷ [])

take_slices-IsPlaced_example : IsPlaced 3 received_data (512 + 3) × (3 ≤ 3)
unfolding take_slices take_until next contains entry_size
take_slices-IsPlaced_example =
    take_slices-IsPlaced tar (some header) 3 refl (receiving_data 3) ((1 ∷ 2 ∷ 3 ∷ []) ∷ []) 512
      refl (omega arith, refl)

take_slices-InRange_example : InRange (receiving_data 1)
unfolding take_slices take_until next contains entry_size
take_slices-InRange_example =
    take_slices-InRange tar (some header) (λ size e. ground arith) (receiving_data 3)
      ((1 ∷ 2 ∷ []) ∷ []) {n = 2} refl (omega arith)

take_slices_next_header_example :
    take_slices tar received_header
      ((1 ∷ 2 ∷ []) ∷ (3 ∷ (replicate 509 0 ++ (header ++ 7 ∷ []))) ∷ [])
      (some header)
    ≡ ok (received_header, 3 + length (replicate {A = ℕ} 509 0) + block_size)
unfolding entry_size
take_slices_next_header_example =
    take_slices_next_header tar (some header) (1 ∷ 2 ∷ 3 ∷ []) (replicate 509 0) refl (omega arith)
      (length-replicate {A = ℕ} 509 0)
      ((1 ∷ 2 ∷ []) ∷ (3 ∷ (replicate 509 0 ++ (header ++ 7 ∷ []))) ∷ []) header (7 ∷ []) refl
      (omega (arith, length-replicate {A = ℕ} 511 0)) refl (omega arith)

take_slices_end_example :
    take_slices tar received_header
      ((1 ∷ 2 ∷ []) ∷ (3 ∷ (replicate 509 0 ++ (zeros ++ (zeros ++ 7 ∷ [])))) ∷ [])
      (some header)
    ≡ ok (received_eof, 3 + length (replicate {A = ℕ} 509 0) + (block_size + block_size))
unfolding entry_size
take_slices_end_example =
    take_slices_end tar (some header) (1 ∷ 2 ∷ 3 ∷ []) (replicate 509 0) refl (omega arith)
      (length-replicate {A = ℕ} 509 0)
      ((1 ∷ 2 ∷ []) ∷ (3 ∷ (replicate 509 0 ++ (zeros ++ (zeros ++ 7 ∷ [])))) ∷ []) zeros zeros
      (7 ∷ []) refl (length-replicate {A = ℕ} 512 0) refl (length-replicate {A = ℕ} 512 0) refl
