-- ===== src/Write/Ends.antt =====
-- Writing the data of an entry, and the end of an archive, with src/write/mod.rs.
use tario.Prelude.{
  ℕ, zero, suc, ◌+◌, ◌-◌, ◌≤◌, ◌<◌, ◌≡◌, refl, sym, ap, ◌∙◌, inl, inr, Bool, false, none, some,
  List, [], ◌∷◌, ◌++◌, append-nil, append_assoc, arith, le-cases, length, take, drop, replicate,
  is_empty, length-take, length-drop, take-append-drop, take_all, drop_all, take-append_self,
  is_empty-some,
}
use tario.Io.Result.{ok}
use tario.Io.Poll.{ready, pass_of, awaits_ready}
use tario.Block.{Tar, block_size, empty_block}
use tario.Buffer.{Buf, capacity}
use tario.Buffer.Contents.{IsValid, contents}
use tario.State.{
  expecting_header, receiving_data, receiving_eof, received_eof, take_until, stops, entry_size,
  u64_size,
}
use tario.State.Layout.{padding, scan_only_block, scan_eof}
use tario.Archive.{Archive, Entry}
use tario.Write.Calls.{AsyncWrite, poll_write_data, on_io}
use tario.Write.Entries.{entry_write, poll_finish, finish}
use tario.Write.Blocks.{finish_parts, zero_block, whole_block}
use tario.Write.Ready.{IsReadySink, Ended, flush_ready}
use tario.Write.Full.{write_full}
use tario.Write.Steps.{entry_write_part, entry_write_last}
use tario.Write.Archived.{write_all}

-- What is written in two steps.
pub joins :
    (before xs ys : List ℕ) {all now zs : List ℕ}
    → all ≡ now ++ ys
    → now ≡ before ++ xs
    → xs ++ ys ≡ zs
    → all ≡ before ++ zs
joins before xs ys second first together =
    second
    ∙ (ap (λ (t : List ℕ). t ++ ys) first
        ∙ (append_assoc before xs ys ∙ ap (λ (t : List ℕ). before ++ t) together))

module _ {W : Type 0} (tar : Tar) (sink : AsyncWrite W) (debug : Bool) (chunk : ℕ)
    (some_bytes : 0 < chunk) (sent : W → List ℕ) (law : IsReadySink sink sent) where
  write_all_ends :
      (fuel : ℕ) (e : Entry) (rest : List ℕ) (a b : Archive W)
      → length rest ≤ chunk
      → entry_write tar sink debug e rest a ≡ (ready (length rest), b)
      → write_all tar sink debug chunk (suc fuel) e rest a ≡ (ready tt, b)
  unfolding write_all
  write_all_ends fuel e rest a b fits written =
      let none_left : drop (length rest) rest ≡ [] = drop_all (length rest) rest (omega arith) in
      rw (take_all chunk rest fits, written, none_left) refl

  write_all_goes_on :
      (fuel : ℕ) (e : Entry) (rest : List ℕ) (a b : Archive W)
      → chunk < length rest
      → entry_write tar sink debug e (take chunk rest) a ≡ (ready (length (take chunk rest)), b)
      → write_all tar sink debug chunk (suc fuel) e rest a
        ≡ write_all tar sink debug chunk fuel e (drop chunk rest) b
  unfolding write_all
  write_all_goes_on fuel e rest a b more written =
      let len : length (take chunk rest) ≡ chunk = omega (arith, length-take chunk rest) in
      let left : is_empty (drop chunk rest) ≡ false =
        is_empty-some (drop chunk rest) (omega (arith, length-drop chunk rest)) in
      rw (written, len, left) refl

  pub write_all_ready :
      (fuel : ℕ) (e : Entry) (size : ℕ) (rest : List ℕ) (a : Archive W)
      → IsValid a.buf
      → chunk ≤ capacity a.buf
      → block_size ≤ capacity a.buf
      → a.state ≡ receiving_data (length rest)
      → length rest < fuel
      → entry_size tar (some e) ≡ ok size
      → size + block_size ≤ u64_size
      → Ended tar sink sent law tt
          (rest ++ replicate (padding size) 0)
          a
          expecting_header
          (write_all tar sink debug chunk fuel e rest a)
  write_all_ready zero e size rest a v fits roomy s h sized small = absurd (omega arith)
  write_all_ready (suc fuel) e size rest a v fits roomy s h sized small =
      let allocated = v.allocated in
      let short = length-take chunk rest in
      elim (le-cases (length rest) chunk) [
        | inl last ↦
            let (b, w, written, valid, same, order) =
              entry_write_last tar sink debug sent law e a v rest (length rest) (omega arith) s size
                roomy refl (omega arith) sized small in
            let b' : Archive W = record { buf = b; state = expecting_header; io = w } in
            (b, w, write_all_ends fuel e rest a b' last written, valid, same, order)
        | inr more ↦
            let (b, w, written, valid, same, order) =
              entry_write_part tar sink debug sent law e a v (take chunk rest) (length rest)
                (omega arith) s (omega arith) in
            let b' : Archive W = record {
              buf = b;
              state = receiving_data (length rest - length (take chunk rest));
              io = w;
            } in
            let left = length-drop chunk rest in
            let waits : b'.state ≡ receiving_data (length (drop chunk rest)) =
              ap receiving_data (omega arith) in
            let (c, w', ends, valid', same', order') =
              write_all_ready fuel e size (drop chunk rest) b' valid (omega arith) (omega arith)
                waits (omega arith) sized small in
            (
              c,
              w',
              write_all_goes_on fuel e rest a b' more written ∙ ends,
              valid',
              same' ∙ same,
              joins (sent a.io ++ contents a.buf) (take chunk rest)
                  (drop chunk rest ++ replicate (padding size) 0) order' order
                  (sym (
                      append_assoc (take chunk rest) (drop chunk rest) (replicate (padding size) 0))
                    ∙ ap (λ (xs : List ℕ). xs ++ replicate (padding size) 0)
                        (take-append-drop chunk rest)),
            )
      ]

  pub finish_loop_ready :
      (a : Archive W)
      → IsValid a.buf
      → block_size ≤ capacity a.buf
      → a.state ≡ expecting_header
      → (b : Buf) × (w : W) × (poll_finish tar sink debug 3 a
          ≡ (ready tt, record { buf = b; state = received_eof; io = w }))
        × IsValid b
        × (contents b ≡ [])
        × (sent w ≡ (sent a.io ++ contents a.buf) ++ (empty_block ++ empty_block))
  unfolding poll_write_data
  finish_loop_ready a v roomy s =
      let (len, blank) = zero_block in
      let first : take_until tar a.state stops empty_block none
          ≡ ok (receiving_eof block_size, length empty_block) =
        rw s (scan_only_block tar none empty_block len ∙ rw blank) in
      let (b, w, written, valid, same, order) =
        write_full tar sink sent law a (empty_block ∷ []) (length empty_block) none empty_block
          {t = receiving_eof block_size} v (take-append_self empty_block []) (omega arith) first in
      let b' : Archive W = record { buf = b; state = receiving_eof block_size; io = w } in
      let second : take_until tar (receiving_eof block_size) stops empty_block none
          ≡ ok (received_eof, length empty_block) =
        ap (λ (xs : List ℕ). take_until tar (receiving_eof block_size) stops xs none)
          (sym (append-nil empty_block))
        ∙ (scan_eof tar none empty_block [] len ∙ rw (blank, len)) in
      let (c, w', written', valid', same', order') =
        write_full tar sink sent law b' (empty_block ∷ []) (length empty_block) none empty_block
          {t = received_eof} valid (take-append_self empty_block []) (omega arith) second in
      let c' : Archive W = record { buf = c; state = received_eof; io = w' } in
      let (d, w'', flushed, valid'', same'', empty, at_start, kept) =
        flush_ready tar sink sent law c' valid' in
      let (end, shut, nothing) = law.shuts w'' in
      (
        d,
        end,
        finish_parts tar sink debug 0 (length empty_block) (length empty_block) a b c w w'
              empty_block s written whole_block written'
            ∙ (pass_of (λ _. on_io tar sink sink.poll_shutdown) flushed ∙ rw shut refl),
        valid'',
        empty,
        nothing
            ∙ (kept
                ∙ joins (sent a.io ++ contents a.buf) empty_block empty_block order' order refl),
      )

  pub finish_ready :
      (a : Archive W)
      → IsValid a.buf
      → block_size ≤ capacity a.buf
      → a.state ≡ expecting_header
      → (b : Buf) × (w : W) × (finish tar sink debug 1 3 a
          ≡ (ready tt, record { buf = b; state = received_eof; io = w }))
        × IsValid b
        × (contents b ≡ [])
        × (sent w ≡ (sent a.io ++ contents a.buf) ++ (empty_block ++ empty_block))
  finish_ready a v roomy s =
      let (b, w, ends, valid, empty, order) = finish_loop_ready a v roomy s in
      (b, w, awaits_ready 0 (poll_finish tar sink debug 3) a ends, valid, empty, order)
