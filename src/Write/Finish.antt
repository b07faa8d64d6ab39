-- ===== src/Write/Finish.antt =====
-- `Archive::poll_finish_entry` of src/write/mod.rs where the padding fits into the buffer.
use tario.Prelude.{
  ℕ, zero, suc, ◌+◌, ◌-◌, ◌≤◌, ◌≡◌, refl, ap, ◌∙◌, false, Option, none, some, List, [], ◌∷◌, ◌++◌,
  arith, length, take, replicate, length-replicate, drop_all,
}
use tario.Io.Result.{ok, slice_to, slice_to_lem}
use tario.Io.Poll.{ready, pass_of}
use tario.Block.{Header, Tar, block_size, empty_block}
use tario.Buffer.{Buf, capacity}
use tario.Buffer.Contents.{IsValid, contents}
use tario.State.{
  State, expecting_header, received_data, aligning_data, aligned_data, next, take_until, stops,
  contains, entry_size, take_marker, u64_size, is_marker,
}
use tario.State.Layout.{padding, next_pad, ends}
use tario.Archive.{Archive}
use tario.Write.Calls.{
  AsyncWrite, can_pass_through, poll_write_data, takes_marker, on_finish_entry, finish_entry_loop,
  poll_finish_entry,
}
use tario.Write.Buffered.{poll_write_data_buffered}

take-replicate : (n m : ℕ) → n ≤ m → take n (replicate {A = ℕ} m 0) ≡ replicate n 0
take-replicate zero m h = refl
take-replicate (suc n) zero h = absurd (omega arith)
take-replicate (suc n) (suc m) h = ap (λ (xs : List ℕ). 0 ∷ xs) (take-replicate n m (omega arith))

pub cut_block : (n : ℕ) → n ≤ block_size → slice_to empty_block n ≡ ok (replicate n 0)
unfolding empty_block
cut_block n h =
    slice_to_lem (replicate block_size 0) n (omega (arith, length-replicate {A = ℕ} block_size 0))
    ∙ ap ok (take-replicate n block_size h)

module _ {W : Type 0} (tar : Tar) (sink : AsyncWrite W) where
  pub takes_marker_lem :
      (a : Archive W) (header : Option Header) {t : State}
      → take_marker tar a.state header ≡ ok t
      → takes_marker tar sink header a ≡ (ready tt, record a { state = t })
  unfolding takes_marker
  takes_marker_lem a header e = rw (e)

  pub take_pad :
      (bytes : List ℕ) (header : Option Header) (rem : ℕ)
      → length bytes ≡ rem
      → take_until tar (aligning_data rem) stops bytes header ≡ ok (aligned_data, length bytes)
  unfolding next contains
  take_pad bytes header rem len =
      ends tar header (aligning_data rem) aligned_data (length bytes) bytes (ground arith)
        (rw (drop_all (length bytes) bytes (omega arith)))

  pub finish_round :
      (h : Header) (fuel : ℕ) (a : Archive W) {s : State}
      → a.state ≡ s
      → finish_entry_loop tar sink (suc fuel) h a
        ≡ on_finish_entry tar sink h (finish_entry_loop tar sink fuel h) s a
  unfolding finish_entry_loop
  finish_round h fuel a e =
      ap (λ (t : State). on_finish_entry tar sink h (finish_entry_loop tar sink fuel h) t a) e

  -- The rounds, by what each of the three calls does.
  pub finish_parts :
      (h : Header) (fuel rem : ℕ) (pad : List ℕ) (a : Archive W) (b : Buf) (w : W)
      → a.state ≡ received_data
      → take_marker tar received_data (some h) ≡ ok (aligning_data rem)
      → slice_to empty_block rem ≡ ok pad
      → poll_write_data tar sink pad (some h) (record a { state = aligning_data rem })
        ≡ (ready rem, record { buf = b; state = aligned_data; io = w })
      → finish_entry_loop tar sink (suc (suc (suc fuel))) h a
        ≡ (ready tt, record { buf = b; state = expecting_header; io = w })
  unfolding on_finish_entry take_marker is_marker next
  finish_parts h fuel rem pad a b w s marked cut written =
      let loop = finish_entry_loop tar sink in
      finish_round h (suc (suc fuel)) a s
      ∙ (pass_of (λ _. loop (suc (suc fuel)) h)
            (takes_marker_lem a (some h)
              (ap (λ (t : State). take_marker tar t (some h)) s ∙ marked))
          ∙ (finish_round h (suc fuel) (record a { state = aligning_data rem }) refl
              ∙ (rw cut (pass_of (λ _. loop (suc fuel) h) written)
                  ∙ (finish_round h fuel (record { buf = b; state = aligned_data; io = w }) refl
                      ∙ takes_marker_lem (record { buf = b; state = aligned_data; io = w }) none
                          refl))))

  -- After the data of an entry whose header states a size of at most 2^64 - 512, where the padding
  -- fits into the free part of a valid buffer and is not passed through, `poll_finish_entry` appends
  -- just the zeros of the padding to the contents, and the archive then expects a header.
  pub poll_finish_entry_pads :
      (a : Archive W) (h : Header) (n : ℕ)
      → IsValid a.buf
      → a.state ≡ received_data
      → entry_size tar (some h) ≡ ok n
      → n + block_size ≤ u64_size
      → padding n ≤ capacity a.buf - a.buf.cap
      → can_pass_through tar sink (padding n) a ≡ false
      → (b : Buf) × (poll_finish_entry tar sink h a
          ≡ (ready tt, record a { buf = b; state = expecting_header }))
        × IsValid b
        × (contents b ≡ contents a.buf ++ replicate (padding n) 0)
        × (capacity b ≡ capacity a.buf)
  unfolding poll_finish_entry take_marker is_marker
  poll_finish_entry_pads a h n v s sized small fits through =
      let rem = padding n in
      let pad = replicate {A = ℕ} rem 0 in
      let len : length pad ≡ rem = length-replicate rem 0 in
      let marked : take_marker tar received_data (some h) ≡ ok (aligning_data rem) =
        rw (next_pad tar (some h) n [] sized small) in
      let (b, written, valid, held, same, unmoved) =
        poll_write_data_buffered tar sink (record a { state = aligning_data rem }) v pad (some h)
          (rw len fits) (rw len through) (take_pad pad (some h) rem len) in
      (
        b,
        finish_parts h 1021 rem pad a b a.io s marked (cut_block rem (omega arith))
            (written ∙ ap (λ (k : ℕ). (ready k, record a { buf = b; state = aligned_data })) len),
        valid,
        held,
        same,
      )
