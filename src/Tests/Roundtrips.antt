-- ===== src/Tests/Roundtrips.antt =====
-- Two entries that are written and read back.
use tario.Prelude.{
  ℕ, min, ◌≡◌, refl, sym, ap, ◌∙◌, inl, inr, true, List, [], ◌∷◌, ◌++◌, arith, length, take,
  replicate, concat, length-replicate, take_all,
}
use tario.Io.Poll.{Poll, ready}
use tario.Block.{Header}
use tario.State.{expecting_header, received_eof}
use tario.Buffer.{Buf}
use tario.Buffer.Contents.{IsValid, contents}
use tario.Archive.{Archive}
use tario.Read.Entries.{Ends}
use tario.Read.Archived.{read_archive, layout, end_blocks}
use tario.Write.Archived.{write_archive}
use tario.Write.Calls.{AsyncWrite}
use tario.Write.Ready.{IsReadySink}
use tario.Write.Whole.{AllWritable, all_stored, write_archive-layout}
use tario.Roundtrip.{read_archive-write_archive}
use tario.Tests.Samples.{tar, header, sink, roomy, roomy-IsValid, writes_in}
use tario.Tests.Archives.{
  roomy-IsReady, slow_source, slow_left, slow_waits, SlowEven, source-Trickles, all_left, other,
  header-IsHeader, other-IsHeader,
}

pub sink-IsReadySink : IsReadySink sink all_left
sink-IsReadySink = record {
  takes = λ bytes w some_bytes. (
    min 2 (length bytes),
    w ++ take (min 2 (length bytes)) bytes,
    refl,
    omega arith,
    omega arith,
    refl,
  );
  narrow_or_whole = inl (λ w. refl);
  shuts = λ w. (w, refl, refl);
}

abbrev two_files : List (Header × List ℕ)
two_files = (header, 7 ∷ 8 ∷ 9 ∷ []) ∷ (other, 4 ∷ 5 ∷ 6 ∷ []) ∷ []

two_files-AllWritable : AllWritable tar 4 two_files
two_files-AllWritable =
    (header-IsHeader, omega arith, omega arith, (other-IsHeader, omega arith, omega arith, tt))

abbrev written : Poll (Unit {0}) × Archive (List ℕ)
written = write_archive tar sink true 2 4 two_files (writes_in expecting_header)

abbrev all_bytes : List ℕ
all_bytes = layout (all_stored two_files) (end_blocks [])

sent_bytes : all_bytes ≡ (written.1).io
sent_bytes =
    let (b, w, ends, valid, empty, order) =
      write_archive-layout tar sink true 2 (omega arith) all_left sink-IsReadySink 4
        (writes_in expecting_header) two_files two_files-AllWritable roomy-IsValid
        (omega (arith, length-replicate {A = ℕ} 1024 0))
        (omega (arith, length-replicate {A = ℕ} 1024 0)) refl in
    sym (ap (λ (o : Poll (Unit {0}) × Archive (List ℕ)). (o.1).io) ends ∙ order)

abbrev reader : Archive (ℕ × List ℕ)
reader = record { buf = roomy; state = expecting_header; io = (2, all_bytes) }

read_archive-write_archive_example :
    ((write_archive tar sink true 2 4 two_files (writes_in expecting_header)).0 ≡ ready tt)
    × Ends slow_left SlowEven two_files received_eof []
        (read_archive tar slow_source (λ h. true) 2 4 3 3 reader)
read_archive-write_archive_example =
    read_archive-write_archive tar sink all_left sink-IsReadySink slow_source slow_left SlowEven
      slow_waits source-Trickles (λ (held : ℕ × List ℕ) (good : SlowEven held). good) true 2 2 4 3
      two_files (writes_in expecting_header) reader (omega arith) (omega arith)
      two_files-AllWritable roomy-IsValid (omega (arith, length-replicate {A = ℕ} 1024 0))
      (omega (arith, length-replicate {A = ℕ} 1024 0)) refl refl roomy-IsReady refl (omega arith)
      refl sent_bytes

-- A vector of bytes, which takes several slices at once and all of them.
abbrev vector : AsyncWrite (List ℕ)
vector = record {
  poll_write = λ bytes w. (ready (length bytes), w ++ bytes);
  poll_write_vectored = λ slices w. (ready (length (concat slices)), w ++ concat slices);
  is_write_vectored = λ w. true;
  poll_flush = λ w. (ready tt, w);
  poll_shutdown = λ w. (ready tt, w);
}

vector-IsReadySink : IsReadySink vector all_left
vector-IsReadySink = record {
  takes = λ bytes w some_bytes. (
    length bytes,
    w ++ bytes,
    refl,
    some_bytes,
    omega arith,
    ap (λ (xs : List ℕ). w ++ xs) (sym (take_all (length bytes) bytes (omega arith))),
  );
  narrow_or_whole = inr (record {
    slices = λ bufs w. (w ++ concat bufs, refl, refl);
    bytes = λ buf w. (w ++ buf, refl, refl);
  });
  shuts = λ w. (w, refl, refl);
}

-- A buffer of one block, past which each block is passed through.
abbrev block_buf : Buf
block_buf = record { bytes = replicate 512 0; cap = 0; pos = 0 }

block_buf-IsValid : IsValid block_buf
block_buf-IsValid = record {
  ordered = omega arith;
  inside = omega arith;
  allocated = omega (arith, length-replicate {A = ℕ} 512 0);
}

abbrev to_vector : Archive (List ℕ)
to_vector = record { buf = block_buf; state = expecting_header; io = [] }

write_archive-layout_example :
    (b : Buf) × (w : List ℕ) × (write_archive tar vector true 2 4 two_files to_vector
      ≡ (ready tt, record { buf = b; state = received_eof; io = w }))
    × IsValid b
    × (contents b ≡ [])
    × (w ≡ [] ++ layout (all_stored two_files) (end_blocks []))
write_archive-layout_example =
    write_archive-layout tar vector true 2 (omega arith) all_left vector-IsReadySink 4 to_vector
      two_files two_files-AllWritable block_buf-IsValid
      (omega (arith, length-replicate {A = ℕ} 512 0))
      (omega (arith, length-replicate {A = ℕ} 512 0)) refl
