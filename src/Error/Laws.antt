-- ===== src/Error/Laws.antt =====
-- The exit codes of src/core/error.rs, which scripts rely on.
use plasmite.Prelude.{◌≡◌, ◌≤◌, refl, arith, Bool, true, false, String, Option, none, some}
use plasmite.Error.{
  ErrorKind, to_exit_code, Result, ok, err, panic, stuck, ensure, ok_or, ◌>>=◌, ◌>>◌,
}

-- Two kinds of error with one exit code are the same kind, and the exit code is not the 0 of a success.
to_exit_code_faithful :
    (k l : ErrorKind) → to_exit_code k ≡ to_exit_code l → (k ≡ l) × (1 ≤ to_exit_code k)
unfolding to_exit_code
to_exit_code_faithful k l e = ground arith

-- What a chain that ends in `ok` went through.
module _ {ℓ} {A : Type ℓ} {x : A} where
  pub ensure-eq-ok :
      (b : Bool) (k : ErrorKind) (t : String) (m : Result A)
      → (ensure b k t >> m) ≡ ok x
      → (b ≡ true) × (m ≡ ok x)
  ensure-eq-ok true k t m e = (refl, e)
  ensure-eq-ok false k t m e = cc

  pub >>=-eq-ok {κ} :
      {B : Type κ} (m : Result B) (f : B → Result A)
      → (m >>= f) ≡ ok x
      → (b : B) × (m ≡ ok b) × (f b ≡ ok x)
  >>=-eq-ok (ok b) f e = (b, refl, e)
  >>=-eq-ok (err d) f e = cc
  >>=-eq-ok panic f e = cc
  >>=-eq-ok stuck f e = cc

pub ok_or-eq-ok {ℓ} :
    {A : Type ℓ} (o : Option A) (k : ErrorKind) (t : String) {a : A}
    → ok_or o k t ≡ ok a
    → o ≡ some a
ok_or-eq-ok (some a) k t e = ground arith
ok_or-eq-ok none k t e = cc
