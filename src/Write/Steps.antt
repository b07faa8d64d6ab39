-- ===== src/Write/Steps.antt =====
-- Writing headers, data and padding with src/write/mod.rs to a sink that is always ready.
use tario.Prelude.{
  ℕ, suc, ◌+◌, ◌-◌, ◌≤◌, ◌<◌, ◌≡◌, refl, ap, ◌∙◌, Bool, true, false, some, List, [], ◌∷◌, ◌++◌,
  append-nil, append_assoc, arith, ◌==◌, if◌then◌else◌, length, replicate, all_zero,
  length-replicate, take_all, take-append_self,
}
use tario.Io.Result.{ok}
use tario.Io.Poll.{done, ready, pass_of, awaits_ready, attempt, ◌>>◌}
use tario.Write.Entries.{write_some, finish_written, entry_write, poll_write_header, add_entry}
use tario.State.{
  expecting_header, received_header, receiving_data, received_data, aligning_data, aligned_data,
  next, take_until, stops, entry_size, take_marker, is_marker, u64_size,
}
use tario.Slices.{bytes_len, usize_max}
use tario.Slices.Iter.{bytes_len_lem}
use tario.Archive.{Entry, Archive, new_entry}
use tario.Block.{Tar, Header, block_size}
use tario.Buffer.{capacity}
use tario.Buffer.Contents.{contents, IsValid}
use tario.State.Layout.{padding, next_pad, scan_only_block}
use tario.Write.Calls.{AsyncWrite, poll_write_data, poll_finish_entry}
use tario.Write.Finish.{finish_parts, take_pad, cut_block}
use tario.Write.Blocks.{header_parts}
use tario.Write.Parts.{take_data, finish_written_ready, entry_write_some}
use tario.Write.Ready.{IsReadySink, Ended}
use tario.Write.Full.{write_full}

module _ {W : Type 0} (tar : Tar) (sink : AsyncWrite W) (debug : Bool) (sent : W → List ℕ)
    (law : IsReadySink sink sent) where
  pub poll_write_header_ready :
      (a : Archive W) (h : Header) (size : ℕ)
      → IsValid a.buf
      → block_size ≤ capacity a.buf
      → a.state ≡ expecting_header
      → length h ≡ block_size
      → all_zero h ≡ false
      → entry_size tar (some h) ≡ ok size
      → Ended tar sink sent law tt h a (receiving_data size) (poll_write_header tar sink debug h a)
  unfolding poll_write_header poll_write_data take_marker is_marker next
  poll_write_header_ready a h size v roomy s whole filled sized =
      let leads : take_until tar a.state stops h (some h) ≡ ok (received_header, length h) =
        rw s (scan_only_block tar (some h) h whole ∙ rw filled) in
      let marked : take_marker tar received_header (some h) ≡ ok (receiving_data size) =
        rw (sized) in
      let (b, w, written, valid, same, order) =
        write_full tar sink sent law a (h ∷ []) (length h) (some h) h v (take-append_self h [])
          (omega arith) leads in
      (
        b,
        w,
        header_parts tar sink debug h 1022 (length h) size a b w s (omega arith) written marked,
        valid,
        same,
        order,
      )

  -- A new entry: its header block is written.
  pub add_entry_ready :
      (a : Archive W) (h : Header) (size polls : ℕ)
      → IsValid a.buf
      → block_size ≤ capacity a.buf
      → a.state ≡ expecting_header
      → length h ≡ block_size
      → all_zero h ≡ false
      → entry_size tar (some h) ≡ ok size
      → new_entry tar h ≡ ok h
      → Ended tar sink sent law h h a
          (receiving_data size)
          (add_entry tar sink debug (suc polls) h a)
  unfolding add_entry
  add_entry_ready a h size polls v roomy s whole filled sized made =
      let (b, w, headed, valid, same, order) =
        poll_write_header_ready a h size v roomy s whole filled sized in
      (
        b,
        w,
        pass_of (λ _. attempt (new_entry tar h))
              (awaits_ready polls (poll_write_header tar sink debug h) a headed)
            ∙ rw made refl,
        valid,
        same,
        order,
      )

  finish_entry_ready :
      (a : Archive W) (h : Header) (n : ℕ)
      → IsValid a.buf
      → block_size ≤ capacity a.buf
      → a.state ≡ received_data
      → entry_size tar (some h) ≡ ok n
      → n + block_size ≤ u64_size
      → Ended tar sink sent law tt
          (replicate (padding n) 0)
          a
          expecting_header
          (poll_finish_entry tar sink h a)
  unfolding poll_finish_entry poll_write_data take_marker is_marker
  finish_entry_ready a h n v roomy s sized small =
      let rem = padding n in
      let pad : List ℕ = replicate rem 0 in
      let len : length pad ≡ rem = length-replicate rem 0 in
      let marked : take_marker tar received_data (some h) ≡ ok (aligning_data rem) =
        rw (next_pad tar (some h) n [] sized small) in
      let (b, w, written, valid, same, order) =
        write_full tar sink sent law (record a { state = aligning_data rem }) (pad ∷ [])
          (length pad) (some h) pad v (take-append_self pad []) (omega arith)
          (take_pad tar sink pad (some h) rem len) in
      (
        b,
        w,
        finish_parts tar sink h 1021 rem pad a b w s marked (cut_block rem (omega arith)) (
            written
            ∙ ap (λ (k : ℕ). (ready k, record { buf = b; state = aligned_data; io = w })) len),
        valid,
        same,
        order,
      )

  module _ (e : Entry) (a : Archive W) (v : IsValid a.buf) (bytes : List ℕ) (rem : ℕ)
      (fits : length bytes ≤ capacity a.buf) (s : a.state ≡ receiving_data rem) where
    -- A write of a part of the data.
    pub entry_write_part :
        length bytes < rem
        → Ended tar sink sent law
            (length bytes)
            bytes
            a
            (receiving_data (rem - length bytes))
            (entry_write tar sink debug e bytes a)
    unfolding write_some
    entry_write_part short =
        let test : (length bytes == rem) ≡ false = ground arith in
        let (b, w, written, valid, same, order) =
          write_full tar sink sent law a (bytes ∷ []) rem (some e) bytes
            {t = receiving_data (rem - length bytes)} v
            (take_all rem (bytes ++ []) (omega (arith, ap length (append-nil bytes)))
              ∙ append-nil bytes)
            fits
            (rw s (take_data tar sink debug bytes (some e) rem (omega arith) ∙ rw test refl)) in
        (
          b,
          w,
          entry_write_some tar sink debug e a bytes rem s ∙ rw (written, test) refl,
          valid,
          same,
          order,
        )

    -- The write of the last part, which also writes the padding.
    pub entry_write_last :
        (size : ℕ)
        → block_size ≤ capacity a.buf
        → length bytes ≡ rem
        → length bytes ≤ usize_max
        → entry_size tar (some e) ≡ ok size
        → size + block_size ≤ u64_size
        → Ended tar sink sent law
            (length bytes)
            (bytes ++ replicate (padding size) 0)
            a
            expecting_header
            (entry_write tar sink debug e bytes a)
    unfolding write_some
    entry_write_last size roomy all narrow sized small =
        let test : (length bytes == rem) ≡ true = ground arith in
        let (b, w, written, valid, same, order) =
          write_full tar sink sent law a (bytes ∷ []) rem (some e) bytes {t = received_data} v
            (take_all rem (bytes ++ []) (omega (arith, ap length (append-nil bytes)))
              ∙ append-nil bytes)
            fits
            (rw s (take_data tar sink debug bytes (some e) rem (omega arith) ∙ rw test refl)) in
        let b' : Archive W = record { buf = b; state = received_data; io = w } in
        let (c, w', finished, valid', same', order') =
          finish_entry_ready b' e size valid (omega arith) refl sized small in
        let counted : bytes_len (bytes ∷ []) ≡ length bytes =
          bytes_len_lem (bytes ∷ []) ∙ omega (arith, ap length (append-nil bytes)) in
        let c' : Archive W = record { buf = c; state = expecting_header; io = w' } in
        let ended : finish_written tar sink debug (bytes ∷ []) (length bytes) e b'
            ≡ (ready tt, c') =
          finish_written_ready tar sink debug e (bytes ∷ []) b' c' (length bytes) counted refl
            finished in
        (
          c,
          w',
          entry_write_some tar sink debug e a bytes rem s
              ∙ (pass_of
                    (λ (n : ℕ).
                      (if n == rem then finish_written tar sink debug (bytes ∷ []) n e else done tt)
                      >> done n)
                    written
                  ∙ (ap
                        (λ (t : Bool).
                          ((if t
                                then finish_written tar sink debug (bytes ∷ []) (length bytes) e
                                else done tt)
                              >> done (length bytes))
                            b')
                        test
                      ∙ pass_of (λ _. done (length bytes)) ended)),
          valid',
          same' ∙ same,
          order'
              ∙ (ap (λ (xs : List ℕ). xs ++ replicate (padding size) 0) order
                  ∙ append_assoc (sent a.io ++ contents a.buf) bytes (replicate (padding size) 0)),
        )
