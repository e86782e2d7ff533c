-- ===== src/Core/Error.antt =====
-- crates/liaozhai-core/src/error.rs. An error of the operating system is its text.
use liaozhai.Common.{Text, arith, codes, refl, ◌++◌, ◌≡◌}

pub data Error : Type 0 where
  io : Text → Error
  config : Text → Error
  auth : Text → Error
  net : Text → Error
  world : Text → Error
  codec : Text → Error

-- `std::result::Result`
pub data Result {ℓ} (E A : Type ℓ) : Type ℓ where
  ok : A → Result E A
  err : E → Result E A

module _ {ℓ} {E A B : Type ℓ} where
  -- The `?` operator.
  infixl 5 ◌>>=◌
  abbrev pub ◌>>=◌ : Result E A → (A → Result E B) → Result E B
  err failure >>= next = err failure
  ok value >>= next = next value

module _ {E A B : Type 0} where
  -- A chain that succeeds, taken apart.
  pub bind-ok :
      (first : Result E A) (next : A → Result E B) (value : B)
      → (first >>= next) ≡ ok value
      → (x : A) × (first ≡ ok x) × (next x ≡ ok value)
  bind-ok (err e) next value h = ground arith
  bind-ok (ok x) next value h = (x, refl, h)

module _ {ℓ} {E F A : Type ℓ} where
  abbrev pub map_err : (E → F) → Result E A → Result F A
  map_err f (ok a) = ok a
  map_err f (err e) = err (f e)

module _ {E F A : Type 0} where
  pub map_err-ok : (f : E → F) (r : Result E A) (a : A) → map_err f r ≡ ok a → r ≡ ok a
  map_err-ok f (ok b) a h = cc
  map_err-ok f (err e) a h = ground arith

pub ok-inj : {E A : Type 0} {a b : A} → ◌≡◌ {A = Result E A} (ok a) (ok b) → a ≡ b
ok-inj h = cc

-- `#[error("…")]`, which `to_string` prints.
unfoldable pub display : Error → Text
display (io e) = codes "I/O error: " ++ e
display (config e) = codes "configuration error: " ++ e
display (auth e) = codes "authentication error: " ++ e
display (net e) = codes "network error: " ++ e
display (world e) = codes "world error: " ++ e
display (codec e) = codes "codec error: " ++ e
