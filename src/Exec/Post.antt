-- ===== src/Exec/Post.antt =====
-- Postconditions of a call. `Gives P r`: no panic, and a value of `r` satisfies `P`.
-- `Returns P r`: there is a value, and it does.
use microfips.Base.{◌≡◌, refl, Bool, true, false, if◌then◌else◌}
use microfips.Exec.Monad.{Exec, ok, err, panic, IsNotPanic, ◌>>=◌}

abbrev pub Gives {ℓ κ} : {E : Type ℓ} {A : Type κ} → (A → Type 0) → Exec E A → Type 0
Gives P (ok a) = P a
Gives P (err e) = Unit
Gives P panic = ⊥

abbrev pub Returns {ℓ κ} : {E : Type ℓ} {A : Type κ} → (A → Type 0) → Exec E A → Type 0
Returns P (ok a) = P a
Returns P (err e) = ⊥
Returns P panic = ⊥

module _ {ℓ κ} {E : Type ℓ} {A : Type κ} where
  pub Gives-bind {μ} :
      {B : Type μ} (P : A → Type 0) (Q : B → Type 0) (m : Exec E A) (f : A → Exec E B)
      → Gives P m
      → ((a : A) → P a → Gives Q (f a))
      → Gives Q (m >>= f)
  Gives-bind P Q (ok a) f h k = k a h
  Gives-bind P Q (err e) f h k = tt
  Gives-bind P Q panic f h k = absurd h

  pub Returns-bind {μ} :
      {B : Type μ} (P : A → Type 0) (Q : B → Type 0) (m : Exec E A) (f : A → Exec E B)
      → Returns P m
      → ((a : A) → P a → Returns Q (f a))
      → Returns Q (m >>= f)
  Returns-bind P Q (ok a) f h k = k a h
  Returns-bind P Q (err e) f h k = absurd h
  Returns-bind P Q panic f h k = absurd h

  pub Gives-if :
      (P : A → Type 0) (b : Bool) (x y : Exec E A)
      → (b ≡ true → Gives P x)
      → (b ≡ false → Gives P y)
      → Gives P (if b then x else y)
  Gives-if P true x y h k = h refl
  Gives-if P false x y h k = k refl

  pub if-IsNotPanic :
      (b : Bool) (x y : Exec E A) → IsNotPanic x → IsNotPanic y → IsNotPanic (if b then x else y)
  if-IsNotPanic true x y hx hy = hx
  if-IsNotPanic false x y hx hy = hy

  pub Gives-IsNotPanic : (P : A → Type 0) (m : Exec E A) → Gives P m → IsNotPanic m
  Gives-IsNotPanic P (ok a) h = tt
  Gives-IsNotPanic P (err e) h = tt
  Gives-IsNotPanic P panic h = absurd h

  pub IsNotPanic-Gives : (m : Exec E A) → IsNotPanic m → Gives (λ a. Unit {0}) m
  IsNotPanic-Gives (ok a) h = tt
  IsNotPanic-Gives (err e) h = tt
  IsNotPanic-Gives panic h = absurd h

-- The value that a call returns.
pub returned {ℓ κ} :
    {E : Type ℓ} {A : Type κ} (P : A → Type 0) (m : Exec E A)
    → Returns P m
    → (a : A) × (m ≡ ok a) × P a
returned P (ok a) h = (a, refl, h)
returned P (err e) h = absurd h
returned P panic h = absurd h
