-- ===== src/Prelude/Exec/Triple.antt =====
-- What holds behind an action if a condition holds in front of it: of the result if it comes to
-- its end, and of the state alone if it returned early.
use mathlib.Core.Path.{◌≡◌, refl}
use mathlib.Core.Bool.{Bool, true, false}
use mathlib.Core.Option.{Option, none, some}
use microdc.Prelude.Tests.{if◌then◌else◌}
use microdc.Prelude.Exec.{
  Exec, pure, stop, gets, proceed, ◌>>=◌, modify, call, when, clean_up, or_else, expect,
}

abbrev pub Post {ℓ} : {S A : Type ℓ} → (A → S → Type ℓ) → (S → Type ℓ) → Option A → S → Type ℓ
Post Q R none s = R s
Post Q R (some a) s = Q a s

pub record Triple {ℓ} {S A : Type ℓ} (P : S → Type ℓ) (m : Exec S A) (Q : A → S → Type ℓ)
    (R : S → Type ℓ) : Type ℓ where
  pub at : (s : S) → P s → Post Q R (m s).0 (m s).1

abbrev pub Keeps {ℓ} : {S A : Type ℓ} → (S → Type ℓ) → Exec S A → Type ℓ
Keeps P m = Triple P m (λ _. P) P

module _ {ℓ} {S A : Type ℓ} {P R : S → Type ℓ} {Q : A → S → Type ℓ} where
  pub Triple-pure : (a : A) → ((s : S) → P s → Q a s) → Triple P (pure a) Q R
  unfolding pure
  Triple-pure a h = record { at = h }

  pub Triple-stop : ((s : S) → P s → R s) → Triple P (stop {A = A}) Q R
  unfolding stop
  Triple-stop h = record { at = h }

  pub Triple-gets : (f : S → A) → ((s : S) → P s → Q (f s) s) → Triple P (gets f) Q R
  unfolding gets
  Triple-gets f h = record { at = h }

  pub Triple-if :
      (b : Bool) (m n : Exec S A)
      → (b ≡ true → Triple P m Q R)
      → (b ≡ false → Triple P n Q R)
      → Triple P (if b then m else n) Q R
  Triple-if true m n h g = h refl
  Triple-if false m n h g = g refl

  -- a precondition may be strengthened
  pub Triple-front :
      {P' : S → Type ℓ} {m : Exec S A} → ((s : S) → P s → P' s) → Triple P' m Q R → Triple P m Q R
  Triple-front h t = record { at = λ s p. t.at s (h s p) }

  pub Triple-back :
      {Q' : A → S → Type ℓ} {R' : S → Type ℓ} {m : Exec S A}
      → ((a : A) (s : S) → Q' a s → Q a s)
      → ((s : S) → R' s → R s)
      → Triple P m Q' R'
      → Triple P m Q R
  Triple-back {Q'} {R'} {m} h g t = record { at = λ s p. weaken (m s).0 (m s).1 (t.at s p) }
    where
      weaken : (r : Option A) (s : S) → Post Q' R' r s → Post Q R r s
      weaken none s = g s
      weaken (some a) s = h a s

module _ {ℓ} {S A B : Type ℓ} {R : S → Type ℓ} {Q : A → S → Type ℓ} {Q' : B → S → Type ℓ} where
  proceed_lem :
      (f : A → Exec S B)
      → ((a : A) → Triple (Q a) (f a) Q' R)
      → (r : Option A) (s : S) → Post Q R r s
      → Post Q' R (proceed r f s).0 (proceed r f s).1
  proceed_lem f h none s p = p
  proceed_lem f h (some a) s p = (h a).at s p

module _ {ℓ} {S A B : Type ℓ} {P R : S → Type ℓ} {Q : A → S → Type ℓ} {Q' : B → S → Type ℓ} where
  pub Triple-bind :
      {m : Exec S A} {f : A → Exec S B}
      → Triple P m Q R
      → ((a : A) → Triple (Q a) (f a) Q' R)
      → Triple P (m >>= f) Q' R
  unfolding ◌>>=◌
  Triple-bind {m} {f} t h = record { at = λ s p. proceed_lem f h (m s).0 (m s).1 (t.at s p) }

module _ {ℓ} {S : Type ℓ} {P R : S → Type ℓ} {Q : Unit {ℓ} → S → Type ℓ} where
  pub Triple-modify : (f : S → S) → ((s : S) → P s → Q tt (f s)) → Triple P (modify f) Q R
  unfolding modify
  Triple-modify f h = record { at = h }

  pub Triple-call : {m : Exec S (Unit {ℓ})} → Triple P m (λ _. Q tt) (Q tt) → Triple P (call m) Q R
  unfolding call
  Triple-call {m} t = record { at = λ s p. same (m s).0 (m s).1 (t.at s p) }
    where
      same : (r : Option (Unit {ℓ})) (s : S) → Post (λ _. Q tt) (Q tt) r s → Q tt s
      same none s q = q
      same (some a) s q = q

  pub Triple-when :
      (b : Bool) (m : Exec S (Unit {ℓ}))
      → (b ≡ true → Triple P m Q R)
      → (b ≡ false → (s : S) → P s → Q tt s)
      → Triple P (when b m) Q R
  Triple-when true m h g = h refl
  Triple-when false m h g = Triple-pure tt (g refl)

module _ {ℓ} {S A : Type ℓ} {P R R' : S → Type ℓ} {Q : A → S → Type ℓ} where
  pub Triple-or_else :
      {m : Exec S A} {n : Exec S (Unit {ℓ})}
      → Triple P m Q R'
      → Triple R' n (λ _. R) R
      → Triple P (or_else m n) Q R
  unfolding or_else
  Triple-or_else {m} {n} t h = record { at = λ s p. after (m s).0 (m s).1 (t.at s p) }
    where
      either : (r : Option (Unit {ℓ})) (s : S) → Post (λ _. R) R r s → R s
      either none s q = q
      either (some a) s q = q

      after :
          (r : Option A) (s : S) → Post Q R' r s → Post Q R (clean_up n r s).0 (clean_up n r s).1
      after none s q = either (n s).0 (n s).1 (h.at s q)
      after (some a) s q = q

module _ {ℓ} {S A : Type ℓ} {P R : S → Type ℓ} {Q : A → S → Type ℓ} where
  pub Triple-expect :
      (o : Option A) {n : Exec S (Unit {ℓ})}
      → ((a : A) → o ≡ some a → (s : S) → P s → Q a s)
      → Triple P n (λ _. R) R
      → Triple P (expect o n) Q R
  Triple-expect none h g = Triple-bind g (λ _. Triple-stop (λ s p. p))
  Triple-expect (some a) h g = Triple-pure a (h a refl)

module _ {ℓ} {S : Type ℓ} {A : Type ℓ} {I : S → Type ℓ} where
  pub Keeps-pure : (a : A) → Keeps I (pure a)
  Keeps-pure a = Triple-pure a (λ s p. p)

  pub Keeps-stop : Keeps I (stop {A = A})
  Keeps-stop = Triple-stop (λ s p. p)

  pub Keeps-gets : (f : S → A) → Keeps I (gets f)
  Keeps-gets f = Triple-gets f (λ s p. p)

  pub Keeps-if : (b : Bool) (m n : Exec S A) → Keeps I m → Keeps I n → Keeps I (if b then m else n)
  Keeps-if b m n h g = Triple-if b m n (λ _. h) (λ _. g)

  pub Keeps-or_else :
      {m : Exec S A} {n : Exec S (Unit {ℓ})} → Keeps I m → Keeps I n → Keeps I (or_else m n)
  Keeps-or_else h g = Triple-or_else h g

  pub Keeps-expect : (o : Option A) {n : Exec S (Unit {ℓ})} → Keeps I n → Keeps I (expect o n)
  Keeps-expect o g = Triple-expect o (λ a e s p. p) g

module _ {ℓ} {S : Type ℓ} {I : S → Type ℓ} where
  pub Keeps-bind :
      {A B : Type ℓ} {m : Exec S A} {f : A → Exec S B}
      → Keeps I m
      → ((a : A) → Keeps I (f a))
      → Keeps I (m >>= f)
  Keeps-bind h g = Triple-bind h g

  pub Keeps-call : {m : Exec S (Unit {ℓ})} → Keeps I m → Keeps I (call m)
  Keeps-call h = Triple-call h

  pub Keeps-when : (b : Bool) {m : Exec S (Unit {ℓ})} → Keeps I m → Keeps I (when b m)
  Keeps-when b {m} h = Triple-when b m (λ _. h) (λ _ s p. p)

pub ruleset keeps_rules = (
  Keeps-pure, Keeps-stop, Keeps-gets, Keeps-if, Keeps-or_else, Keeps-expect, Keeps-bind, Keeps-call,
  Keeps-when,
)
