-- ===== src/Roundtrip.antt =====
-- An archive that is written with src/write/mod.rs and read with src/read/mod.rs.
use tario.Prelude.{
  ℕ, suc, ◌+◌, ◌%◌, ◌≤◌, ◌<◌, ◌≡◌, refl, ap, ◌∙◌, inl, Bool, true, List, [], ◌∷◌, ◌++◌, arith,
  length, length-replicate,
}
use mathlib.Core.Path.{subst}
use tario.Io.Poll.{ready, Poll}
use tario.Block.{Tar, Header, block_size}
use tario.Buffer.{capacity}
use tario.Buffer.Contents.{IsValid, contents}
use tario.Buffer.Room.{IsReady}
use tario.State.{expecting_header, received_eof}
use tario.State.Layout.{padding}
use tario.Archive.{Archive}
use tario.Read.Calls.{AsyncRead}
use tario.Read.Stream.{stream}
use tario.Read.Pending.Source.{Trickles}
use tario.Read.Pending.Whole.{read_archive-Trickles}
use tario.Read.Entries.{Ends}
use tario.Read.Archived.{read_archive, all_shown, layout, end_blocks}
use tario.Read.Whole.{AllStored}
use tario.Write.Calls.{AsyncWrite}
use tario.Write.Archived.{write_archive}
use tario.Write.Ready.{IsReadySink}
use tario.Write.Whole.{AllWritable, all_stored, write_archive-layout}

abbrev all_wanted : Header → Bool
all_wanted h = true

readable :
    (tar : Tar) (limit : ℕ) (files : List (Header × List ℕ))
    → AllWritable tar limit files
    → AllStored tar all_wanted limit (all_stored files)
readable tar limit [] all = tt
readable tar limit ((h, body) ∷ files) (is, small, enough, all) = (
  record { head = is; small = small; filled = length-replicate (padding (length body)) 0 },
  (λ e. cc),
  enough,
  readable tar limit files all,
)

shows_all : (files : List (Header × List ℕ)) → all_shown all_wanted (all_stored files) ≡ files
shows_all [] = refl
shows_all ((h, body) ∷ files) =
    ap (λ (xs : List (Header × List ℕ)). (h, body) ∷ xs) (shows_all files)

length-all_stored : (files : List (Header × List ℕ)) → length (all_stored files) ≡ length files
length-all_stored [] = refl
length-all_stored (file ∷ files) = ap suc (length-all_stored files)

module _ {W R : Type 0} (tar : Tar) (sink : AsyncWrite W) (sent : W → List ℕ)
    (takes : IsReadySink sink sent) (source : AsyncRead R) (left : R → List ℕ) (good : R → Type 0)
    (waits : R → ℕ) (gives : Trickles source left good waits)
    (blocks : (r : R) → good r → length (left r) % block_size ≡ 0) where
  -- Any entries that are written to a new archive, with `add_entry`, writes of up to `chunk` bytes and
  -- `finish`, are read back: on a source with the bytes that the sink was sent a client of `next_entry`
  -- and `poll_read` is given exactly the same headers and data, in order, and then no entry. The headers
  -- are accepted by the reader and state the size of the data, of at most 2^64 - 512; there are enough
  -- rounds for the data of each entry. The sink is always ready. It does not support vectored writes,
  -- and takes any number of the bytes of a slice at a time, one at least; or it takes all that it is
  -- given, as a vector of bytes does. The source is pending less often than each call is polled, at any
  -- time, and gives any number of whole blocks at a time. The buffer of the writer holds a block and a
  -- chunk, and that of the reader is ready to be filled and of a size that is a positive multiple of
  -- 512.
  pub read_archive-write_archive :
      (debug : Bool) (chunk room limit polls : ℕ) (files : List (Header × List ℕ)) (a : Archive W)
      (r : Archive R)
      → 0 < chunk
      → 0 < room
      → AllWritable tar limit files
      → IsValid a.buf
      → chunk ≤ capacity a.buf
      → block_size ≤ capacity a.buf
      → a.state ≡ expecting_header
      → sent a.io ++ contents a.buf ≡ []
      → IsReady r.buf
      → good r.io
      → waits r.io < polls
      → r.state ≡ expecting_header
      → stream left r ≡ sent ((write_archive tar sink debug chunk limit files a).1).io
      → ((write_archive tar sink debug chunk limit files a).0 ≡ ready tt)
        × Ends left good files received_eof []
            (read_archive tar source (λ h. true) room limit polls (length files + 1) r)
  read_archive-write_archive debug chunk room limit polls files a r some_bytes some_room all v fits
        roomy s fresh ready' g enough s' same =
      let (b, w, ends, valid, empty, order) =
        write_archive-layout tar sink debug chunk some_bytes sent takes limit a files all v fits
          roomy s in
      let bytes = layout (all_stored files) (end_blocks []) in
      let view : stream left r ≡ bytes =
        same
        ∙ (ap (λ (o : Poll (Unit {0}) × Archive W). sent (o.1).io) ends
            ∙ (order ∙ ap (λ (xs : List ℕ). xs ++ bytes) fresh)) in
      (
        ap (λ (o : Poll (Unit {0}) × Archive W). o.0) ends,
        subst
            (λ (shown : List (Header × List ℕ)).
              Ends left good shown received_eof []
                (read_archive tar source all_wanted room limit polls (length files + 1) r))
            (shows_all files)
            (read_archive-Trickles tar source all_wanted room limit polls left good waits gives
              blocks (length files + 1) r (all_stored files) [] some_room
              (readable tar limit files all) ready' g (inl s') view refl
              (omega (arith, length-all_stored files)) enough),
      )
