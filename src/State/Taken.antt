-- ===== src/State/Taken.antt =====
-- `State::take_slices` within the data of an entry, and within its padding.
use tario.Prelude.{
  ℕ, ◌-◌, ◌≤◌, ◌<◌, ◌≡◌, ap, ◌∙◌, ◌⊎◌, Option, List, [], ◌∷◌, append-nil, arith, ◌==◌,
  if◌then◌else◌, length, drop_all,
}
use tario.Io.Result.{ok}
use tario.Block.{Header, Tar}
use tario.State.{
  take_slices, receiving_data, received_data, aligning_data, aligned_data, next, contains,
}
use tario.State.Chunks.{take_slices-eq-take_until}
use tario.State.Layout.{scan, ends}

module _ (tar : Tar) (hdr : Option Header) where
  -- A slice of data that does not go past the entry's is taken whole.
  pub take_slices_data :
      (rem : ℕ) (buf : List ℕ)
      → 0 < length buf
      → length buf ≤ rem
      → take_slices tar (receiving_data rem) (buf ∷ []) hdr
        ≡ ok (
          if length buf == rem then received_data else receiving_data (rem - length buf),
          length buf,
        )
  unfolding next contains
  take_slices_data rem buf some_bytes fits =
      take_slices-eq-take_until tar hdr (receiving_data rem) (buf ∷ [])
      ∙ (ap (scan tar hdr (receiving_data rem)) (append-nil buf)
          ∙ ends tar hdr (receiving_data rem)
              (if length buf == rem then received_data else receiving_data (rem - length buf))
              (length buf) buf (ground arith) (ground (arith, drop_all (length buf) buf)))

  -- So is a slice of padding.
  pub take_slices_pad :
      (rem : ℕ) (buf : List ℕ)
      → (rem ≡ 0) ⊎ (0 < length buf)
      → length buf ≤ rem
      → take_slices tar (aligning_data rem) (buf ∷ []) hdr
        ≡ ok (
          if length buf == rem then aligned_data else aligning_data (rem - length buf),
          length buf,
        )
  unfolding next contains
  take_slices_pad rem buf h fits =
      take_slices-eq-take_until tar hdr (aligning_data rem) (buf ∷ [])
      ∙ (ap (scan tar hdr (aligning_data rem)) (append-nil buf)
          ∙ ends tar hdr (aligning_data rem)
              (if length buf == rem then aligned_data else aligning_data (rem - length buf))
              (length buf) buf (ground arith) (ground (arith, drop_all (length buf) buf)))
