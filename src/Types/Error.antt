-- ===== src/Types/Error.antt =====
-- crates/types/src/error.rs and crates/indexer/src/error.rs: the errors, and Rust's `Result` with `?` as a monad.
-- `panic` stands for a slice out of bounds or a failed `unwrap`, which ends the task in Rust.
-- The reason texts of the errors are left out; `what` is kept.
use Prim.Native.String.{String}
use rgbpp_indexer.Common.{ℕ, ◌≡◌, refl, ◌≢◌, List, ◌-◌, Bool, true, false}
use rgbpp_indexer.Common.{leb, length, take, drop, if◌then◌else◌, ◌&&◌, ◌≤◌, arith, ◌⊎◌, inl, inr}

pub data Error : Type 0 where
  hex : Error
  length_of : String → ℕ → ℕ → Error
  malformed : String → Error
  unsupported : String → ℕ → Error
  config : String → Error
  -- `IndexerError`, which wraps the errors above and adds these; `upstream` stands for an error of the
  -- node, the Bitcoin data source or the database.
  upstream inconsistent : Error
  reorg : ℕ → List ℕ → List ℕ → Error

pub data Result {ℓ} (A : Type ℓ) : Type ℓ where
  panic : Result A
  err : Error → Result A
  ok : A → Result A

-- `?`: what is not a value ends the function.
infixl 5 ◌>>=◌
abbrev pub ◌>>=◌ {κ μ} : {X : Type κ} {Y : Type μ} → Result X → (X → Result Y) → Result Y
panic >>= next = panic
err reason >>= next = err reason
ok value >>= next = next value

pub ok-injective {ℓ} : {A : Type ℓ} {a b : A} → ok a ≡ ok b → a ≡ b
ok-injective h = cc

pub Result-cases {ℓ} :
    {A : Type ℓ} (m : Result A)
    → ((a : A) × (m ≡ ok a)) ⊎ (((e : Error) × (m ≡ err e)) ⊎ (m ≡ panic))
Result-cases (ok a) = inl (a, refl)
Result-cases (err e) = inr (inl (e, refl))
Result-cases panic = inr (inr refl)

-- Where `?` let a function go on to a value, the step before it had one.
module _ {κ μ} {X : Type κ} {Y : Type μ} where
  pub >>=-eq-ok :
      (r : Result X) (next : X → Result Y) {y : Y}
      → (r >>= next) ≡ ok y
      → (x : X) × (r ≡ ok x) × (next x ≡ ok y)
  >>=-eq-ok panic next e = cc
  >>=-eq-ok (err reason) next e = cc
  >>=-eq-ok (ok value) next e = (value, refl, e)

pub >>=-ne-panic {ℓ κ} :
    {A : Type ℓ} {B : Type κ} (m : Result A) (f : A → Result B)
    → m ≢ panic
    → ((a : A) → m ≡ ok a → f a ≢ panic)
    → (m >>= f) ≢ panic
>>=-ne-panic (ok a) f h k = k a refl
>>=-ne-panic (err e) f h k = λ p. cc
>>=-ne-panic panic f h k = absurd (h refl)

-- `&data[start..end]`.
unfoldable pub slice : List ℕ → ℕ → ℕ → Result (List ℕ)
slice data_ start end =
    if leb start end && leb end (length data_)
    then ok (take (end - start) (drop start data_))
    else panic

pub slice-eq-ok :
    (data_ : List ℕ) (start end : ℕ)
    → start ≤ end
    → end ≤ length data_
    → slice data_ start end ≡ ok (take (end - start) (drop start data_))
unfolding slice
slice-eq-ok data_ start end h k = ground arith

-- Inversion of a guard that succeeded.
module _ {ℓ} {A : Type ℓ} where
  pub guard_else-eq-ok :
      (c : Bool) (e : Error) (m : Result A) {a : A}
      → (if c then err e else m) ≡ ok a
      → (c ≡ false) × (m ≡ ok a)
  guard_else-eq-ok true e m h = cc
  guard_else-eq-ok false e m h = (refl, h)

  pub guard_then-eq-ok :
      (c : Bool) (e : Error) (m : Result A) {a : A}
      → (if c then m else err e) ≡ ok a
      → (c ≡ true) × (m ≡ ok a)
  guard_then-eq-ok true e m h = (refl, h)
  guard_then-eq-ok false e m h = cc

  pub guard_else-ne-panic :
      (c : Bool) (e : Error) (m : Result A)
      → (c ≡ false → m ≢ panic)
      → (if c then err e else m) ≢ panic
  guard_else-ne-panic true e m h = λ p. cc
  guard_else-ne-panic false e m h = h refl

  pub guard_then-ne-panic :
      (c : Bool) (e : Error) (m : Result A)
      → (c ≡ true → m ≢ panic)
      → (if c then m else err e) ≢ panic
  guard_then-ne-panic true e m h = h refl
  guard_then-ne-panic false e m h = λ p. cc
