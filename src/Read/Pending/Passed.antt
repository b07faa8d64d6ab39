-- ===== src/Read/Pending/Passed.antt =====
-- `poll_next_entry` of src/read/mod.rs and the future of `next_entry`, made again after they were pending.
use tario.Prelude.{ℕ, ◌≡◌, refl, ◌⊎◌, inl, inr, false, Option, [], ◌∷◌, arith, take}
use tario.Io.Result.{Result-cases, Result, ok, err, panic}
use tario.Read.Consume.{consume, settle, passes_on}
use tario.Buffer.{buffered, region_bytes}
use tario.State.{
  take_slices, State, is_terminal, next, received_eof, expecting_header, receiving_header,
  received_header, receiving_data, received_data, aligning_data, aligned_data, receiving_eof,
}
use tario.Block.{Header, Tar}
use tario.Archive.{Archive}
use tario.Read.Calls.{AsyncRead, poll_fill_buf, refill, check_eof, commits}

-- A state that is not terminal but for the last one: `consume` ends in these.
abbrev pub IsPassed : State → Type 0
IsPassed s = (s ≡ received_eof) ⊎ (is_terminal s ≡ false)

abbrev SettlesPassed : Result State → Type 0
SettlesPassed (ok s) = IsPassed s
SettlesPassed (err e) = Unit {0}
SettlesPassed (panic p) = Unit {0}

settle-IsPassed :
    (tar : Tar) (s : State) (header : Option Header) → SettlesPassed (settle tar s header)
unfolding settle passes_on next is_terminal
settle-IsPassed tar expecting_header header = inr refl
settle-IsPassed tar (receiving_header rem z) header = ground arith
settle-IsPassed tar received_header header = ground arith
settle-IsPassed tar (receiving_data rem) header = ground arith
settle-IsPassed tar received_data header = ground arith
settle-IsPassed tar (aligning_data rem) header = ground arith
settle-IsPassed tar aligned_data header = inr refl
settle-IsPassed tar (receiving_eof rem) header = ground arith
settle-IsPassed tar received_eof header = inl refl

module _ {R : Type 0} (tar : Tar) (source : AsyncRead R) where
  pub fill_keeps : (a : Archive R) → ((poll_fill_buf tar source a).1).state ≡ a.state
  unfolding poll_fill_buf refill check_eof commits
  fill_keeps a = ground arith

abbrev pub KeepsPassed : {R : Type 0} → Result (Archive R) → Type 0
KeepsPassed (ok a) = IsPassed a.state
KeepsPassed (err e) = Unit {0}
KeepsPassed (panic p) = Unit {0}

pub consume-IsPassed :
    {R : Type 0} (tar : Tar) (a : Archive R) (n : ℕ) (header : Option Header)
    → KeepsPassed (consume tar a n header)
unfolding consume
consume-IsPassed tar a n header = elim (Result-cases (buffered a.buf)) [
  | inr (inl (x, e)) ↦ rw e tt
  | inr (inr (p, e)) ↦ rw e tt
  | inl (region, e) ↦ elim (Result-cases (region_bytes region)) [
    | inr (inl (x, e1)) ↦ ground arith
    | inr (inr (p, e1)) ↦ ground arith
    | inl (bytes, e1) ↦ elim (Result-cases (take_slices tar a.state (take n bytes ∷ []) header)) [
      | inr (inl (x, e2)) ↦ ground arith
      | inr (inr (p, e2)) ↦ ground arith
      | inl ((t, pos), e2) ↦ let passed = settle-IsPassed tar t header in ground arith
    ]
  ]
]
