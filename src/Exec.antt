-- ===== src/Exec.antt =====
-- A call on a session: it returns or raises, and the session comes back either way, since what
-- was flushed before a raise stays in the transaction until someone rolls it back.
pub mod Keeps
pub mod Atomic
pub mod Preserves
use crypto_processing_api.Prelude.{Bool, true, false, Option, none, some}
use crypto_processing_api.Errors.{Error, Result, ok, err}

abbrev pub Exec {ℓ} : Type ℓ → Type ℓ → Type ℓ
Exec S A = S → Result A × S

module _ {ℓ} {S A : Type ℓ} where
  abbrev pub pure : A → Exec S A
  pure a s = (ok a, s)

  abbrev pub raise : Error → Exec S A
  raise e s = (err e, s)

  -- a pure computation that may raise
  abbrev pub lift : Result A → Exec S A
  lift r s = (r, s)

  -- a query
  abbrev pub gets : (S → A) → Exec S A
  gets f s = (ok (f s), s)

  -- the result of a query, or an exception: `if row is None: raise e`
  abbrev pub or_raise : Error → Option A → Exec S A
  or_raise e none s = (err e, s)
  or_raise e (some a) s = (ok a, s)

  -- `with session.begin_nested()` and `session_scope`: an exception undoes the block.
  abbrev pub rolled_back : S → Result A × S → Result A × S
  rolled_back s (ok a, s') = (ok a, s')
  rolled_back s (err e, s') = (err e, s)

  unfoldable pub savepoint : Exec S A → Exec S A
  savepoint m s = rolled_back s (m s)

module _ {ℓ} {S : Type ℓ} where
  -- an UPDATE or an INSERT that cannot fail
  abbrev pub modify : (S → S) → Exec S (Unit {ℓ})
  modify f s = (ok tt, f s)

  abbrev pub guard : Bool → Error → Exec S (Unit {ℓ})
  guard true e s = (err e, s)
  guard false e s = (ok tt, s)

module _ {ℓ} {S A B : Type ℓ} where
  abbrev pub continue : Result A × S → (A → Exec S B) → Result B × S
  continue (ok a, s) f = f a s
  continue (err e, s) f = (err e, s)

  infixl 5 ◌>>=◌ ◌>>◌
  abbrev pub ◌>>=◌ : Exec S A → (A → Exec S B) → Exec S B
  ◌>>=◌ m f s = continue (m s) f

  abbrev pub ◌>>◌ : Exec S A → Exec S B → Exec S B
  ◌>>◌ m k s = continue (m s) (λ _. k)
