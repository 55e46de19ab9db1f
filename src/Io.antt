-- ===== src/Io.antt =====
-- `std::io::Error` and `std::io::Result`: the error's kind and its operating system code. The
-- message of an error is text for people and is left out.
pub mod ReadLine
use nyanpasu_utils.Prelude.{ℕ, Bool, true, false, Option, none, some, ◌≡◌, refl}

-- `std::io::ErrorKind`, as far as the crate tells kinds apart.
pub data ErrorKind : Type 0 where
  not_found permission_denied already_exists invalid_input invalid_data : ErrorKind
  timed_out would_block interrupted other : ErrorKind

pub record IoError : Type 0 where
  pub kind : ErrorKind
  pub raw_os_error : Option ℕ

pub data Result {ℓ} (E A : Type ℓ) : Type ℓ where
  ok : A → Result E A
  err : E → Result E A

-- `result.is_ok()`
abbrev pub is_ok {ℓ} : {E A : Type ℓ} → Result E A → Bool
is_ok (ok a) = true
is_ok (err e) = false

abbrev pub Io : Type 0 → Type 0
Io A = Result IoError A

infixl 5 ◌>>=◌ ◌>>◌
abbrev pub ◌>>=◌ {ℓ} : {E A B : Type ℓ} → Result E A → (A → Result E B) → Result E B
ok a >>= f = f a
err e >>= f = err e

abbrev pub ◌>>◌ {ℓ} : {E B : Type ℓ} → Result E (Unit {ℓ}) → Result E B → Result E B
m >> k = m >>= λ _. k

-- `option.ok_or(e)`
abbrev pub ok_or {ℓ} : {E A : Type ℓ} → Option A → E → Result E A
ok_or none e = err e
ok_or (some a) e = ok a

-- `Error::new(kind, message)`
abbrev pub io_error : ErrorKind → IoError
io_error k = record { kind = k; raw_os_error = none }

abbrev pub is_not_found : ErrorKind → Bool
is_not_found ErrorKind.not_found = true
is_not_found _ = false

abbrev pub is_permission_denied : ErrorKind → Bool
is_permission_denied ErrorKind.permission_denied = true
is_permission_denied _ = false

abbrev pub is_already_exists : ErrorKind → Bool
is_already_exists ErrorKind.already_exists = true
is_already_exists _ = false

abbrev pub is_would_block : ErrorKind → Bool
is_would_block ErrorKind.would_block = true
is_would_block _ = false

-- The value that a chain which ended well has passed on.
pub passed {ℓ} :
    {E A B : Type ℓ} (first : Result E A) (next : A → Result E B) {out : B}
    → (first >>= next) ≡ ok out
    → (x : A) × (first ≡ ok x) × (next x ≡ ok out)
passed (err e) next h = cc
passed (ok x) next h = (x, refl, h)

pub ok_inj {ℓ} : {E A : Type ℓ} {a b : A} → ◌≡◌ {A = Result E A} (ok a) (ok b) → a ≡ b
ok_inj h = cc

pub err_inj {ℓ} : {E A : Type ℓ} {a b : E} → ◌≡◌ {A = Result E A} (err a) (err b) → a ≡ b
err_inj h = cc
