-- ===== src/Io/Result.antt =====
-- `io::Result`, with the panics of the code as a third outcome.
use tario.Prelude.{
  ◌⊎◌, inl, inr, ℕ, ◌≤◌, ◌≡◌, refl, Bool, true, false, List, arith, leb, length, take, drop,
  if◌then◌else◌,
}
use tario.Io.Error.{
  IoError, StateError, ReadError, WriteError, state_error_into_io, read_error_into_io,
  write_error_into_io,
}

-- Why the code panics. `no_fuel` is none of the source's panics: a loop of the model has run out.
pub data Panic : Type 0 where
  out_of_range overflow no_header not_marker assertion invalid_state unwrapped no_fuel : Panic

pub data Result {ℓ} (A : Type ℓ) : Type ℓ where
  ok : A → Result A
  err : IoError → Result A
  panic : Panic → Result A

infixl 5 ◌>>=◌ ◌>>◌
abbrev pub ◌>>=◌ {ℓ κ} : {A : Type ℓ} {B : Type κ} → Result A → (A → Result B) → Result B
ok a >>= f = f a
err e >>= f = err e
panic p >>= f = panic p

abbrev pub ◌>>◌ {ℓ} : {B : Type ℓ} → Result (Unit {0}) → Result B → Result B
m >> k = m >>= λ _. k

-- `assert!` and `expect` on a condition.
abbrev pub assert : Bool → Panic → Result (Unit {0})
assert true p = ok tt
assert false p = panic p

-- `&buf[..n]`, `&buf[n..]` and `&buf[a..b]`.
abbrev pub slice_to {ℓ} : {A : Type ℓ} → List A → ℕ → Result (List A)
slice_to buf n = if leb n (length buf) then ok (take n buf) else panic out_of_range

abbrev pub slice_from {ℓ} : {A : Type ℓ} → List A → ℕ → Result (List A)
slice_from buf n = if leb n (length buf) then ok (drop n buf) else panic out_of_range

abbrev pub slice_range {ℓ} : {A : Type ℓ} → List A → ℕ → ℕ → Result (List A)
slice_range buf a b =
    if leb a b then slice_to buf b >>= (λ front. slice_from front a) else panic out_of_range

pub slice_to_lem {ℓ} :
    {A : Type ℓ} (buf : List A) (n : ℕ) → n ≤ length buf → slice_to buf n ≡ ok (take n buf)
slice_to_lem buf n h = ground arith

pub slice_from_lem {ℓ} :
    {A : Type ℓ} (buf : List A) (n : ℕ) → n ≤ length buf → slice_from buf n ≡ ok (drop n buf)
slice_from_lem buf n h = ground arith

-- To split on a computed result and keep the equation.
pub Result-cases {ℓ} :
    {A : Type ℓ} (r : Result A)
    → ((a : A) × (r ≡ ok a)) ⊎ ((e : IoError) × (r ≡ err e)) ⊎ ((p : Panic) × (r ≡ panic p))
Result-cases (ok a) = inl (a, refl)
Result-cases (err e) = inr (inl (e, refl))
Result-cases (panic p) = inr (inr (p, refl))

-- `expect` and `unwrap`: an error is a panic.
abbrev pub unwrap {ℓ} : {A : Type ℓ} → Result A → Result A
unwrap (ok a) = ok a
unwrap (err e) = panic unwrapped
unwrap (panic p) = panic p

-- The conversions of the crate's errors into a result.
abbrev pub state_error_into_result {ℓ} : {A : Type ℓ} → StateError → Result A
state_error_into_result e = err (state_error_into_io e)

abbrev pub read_error_into_result {ℓ} : {A : Type ℓ} → ReadError → Result A
read_error_into_result e = err (read_error_into_io e)

abbrev pub write_error_into_result {ℓ} : {A : Type ℓ} → WriteError → Result A
write_error_into_result e = err (write_error_into_io e)
