-- ===== src/Prelude/Exec.antt =====
-- C functions that change a state and may return early. What was written before an early return
-- stays written; the result is then `none`, and the rest of the function is not run.
pub mod Triple
use mathlib.Core.Bool.{Bool, true, false}
use mathlib.Core.Option.{Option, none, some}

abbrev pub Exec {ℓ} : Type ℓ → Type ℓ → Type ℓ
Exec S A = S → Option A × S

module _ {ℓ} {S A : Type ℓ} where
  unfoldable pub pure : A → Exec S A
  pure a s = (some a, s)

  -- `return` from the function
  pub stop : Exec S A
  stop s = (none, s)

  unfoldable pub gets : (S → A) → Exec S A
  gets f s = (some (f s), s)

module _ {ℓ} {S A B : Type ℓ} where
  abbrev pub proceed : Option A → (A → Exec S B) → Exec S B
  proceed none f s = (none, s)
  proceed (some a) f s = f a s

  infixl 10 ◌>>=◌ ◌>>◌
  unfoldable pub ◌>>=◌ : Exec S A → (A → Exec S B) → Exec S B
  ◌>>=◌ m f s = let (r, s') = m s in proceed r f s'

  abbrev pub ◌>>◌ : Exec S A → Exec S B → Exec S B
  m >> n = m >>= λ _. n

module _ {ℓ} {S : Type ℓ} where
  unfoldable pub modify : (S → S) → Exec S (Unit {ℓ})
  modify f s = (some tt, f s)

  -- a call whose caller goes on whether or not the callee returned early
  pub call : Exec S (Unit {ℓ}) → Exec S (Unit {ℓ})
  call m s = let (_, s') = m s in (some tt, s')

  abbrev pub when : Bool → Exec S (Unit {ℓ}) → Exec S (Unit {ℓ})
  when true m = m
  when false m = pure tt

module _ {ℓ} {S A : Type ℓ} where
  abbrev clean_up : Exec S (Unit {ℓ}) → Option A → Exec S A
  clean_up n none s = let (_, s') = n s in (none, s')
  clean_up n (some a) s = (some a, s)

  -- if (!m) { n; return; }
  pub or_else : Exec S A → Exec S (Unit {ℓ}) → Exec S A
  or_else m n s = let (r, s') = m s in clean_up n r s'

  -- what a fallible test found, or `n` and an early return
  abbrev pub expect : Option A → Exec S (Unit {ℓ}) → Exec S A
  expect (some a) n = pure a
  expect none n = n >>= λ _. stop
