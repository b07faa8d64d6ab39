-- ===== src/Tests/Samples.antt =====
-- A reading of headers, a source, a sink and archives for the runs.
use tario.Prelude.{
  length-replicate, ℕ, refl, min, inr, false, List, [], ◌∷◌, ◌++◌, arith, length, take, drop,
  replicate,
}
use tario.Io.Poll.{ready}
use tario.Block.{Header, Tar}
use tario.Buffer.{Buf}
use tario.Buffer.Contents.{IsValid}
use tario.State.{State}
use tario.Archive.{Archive}
use tario.Read.Calls.{AsyncRead}
use tario.Write.Calls.{AsyncWrite}
use tario.Write.Flush.{Sends}

-- Every entry holds three bytes.
abbrev pub tar : Tar
tar = record { cksum = λ h. inr 257; size = λ h. inr 3; entry_size = λ h. inr 3 }

abbrev pub header : Header
header = 1 ∷ replicate 511 0

-- A source that gives what it holds.
abbrev pub source : AsyncRead (List ℕ)
source = record { poll_read = λ room held. (ready (take room held), drop room held) }

-- A sink that takes two bytes at a time.
abbrev pub sink : AsyncWrite (List ℕ)
sink = record {
  poll_write = λ bytes w. (ready (min 2 (length bytes)), w ++ take (min 2 (length bytes)) bytes);
  poll_write_vectored = λ slices w. (ready 0, w);
  is_write_vectored = λ w. false;
  poll_flush = λ w. (ready tt, w);
  poll_shutdown = λ w. (ready tt, w);
}

pub sink-Sends : (bytes w : List ℕ) → Sends (λ (w' : List ℕ). w') bytes w (sink.poll_write bytes w)
sink-Sends bytes w = (omega arith, refl)

-- Three bytes stand between the cursors.
abbrev pub buf : Buf
buf = record { bytes = 9 ∷ 1 ∷ 2 ∷ 3 ∷ 0 ∷ []; cap = 4; pos = 1 }

pub buf-IsValid : IsValid buf
buf-IsValid = record { ordered = omega arith; inside = omega arith; allocated = omega arith }

abbrev pub in_state : State → Archive (List ℕ)
in_state s = record { buf = buf; state = s; io = [] }

-- A new buffer with room for two blocks.
abbrev pub roomy : Buf
roomy = record { bytes = replicate 1024 0; cap = 0; pos = 0 }

pub roomy-IsValid : IsValid roomy
roomy-IsValid = record {
  ordered = omega arith;
  inside = omega arith;
  allocated = omega (arith, length-replicate {A = ℕ} 1024 0);
}

abbrev pub writes_in : State → Archive (List ℕ)
writes_in s = record { buf = roomy; state = s; io = [] }
