-- ===== src/Exec/Monad.antt =====
-- A value, an error, or a panic, and how a `?` or a statement sequence passes them on.

pub data Exec {ℓ κ} (E : Type ℓ) (A : Type κ) : Type (ℓ ⊔ κ) where
  ok : A → Exec E A
  err : E → Exec E A
  panic : Exec E A

-- The error of a function that returns `Option`: `err absent` is `None`.
pub data Absent : Type 0 where
  absent : Absent

infixl 5 ◌>>=◌
abbrev pub ◌>>=◌ {ℓ κ ι} :
    {E : Type ℓ} {A : Type κ} {B : Type ι} → Exec E A → (A → Exec E B) → Exec E B
ok a >>= f = f a
err e >>= f = err e
panic >>= f = panic

abbrev pub IsNotPanic {ℓ κ} : {E : Type ℓ} {A : Type κ} → Exec E A → Type 0
IsNotPanic (ok a) = Unit
IsNotPanic (err e) = Unit
IsNotPanic panic = ⊥

-- `map_err(f)`, and what `?` does with the `From` instance of an error.
abbrev pub map_err {ℓ κ ι} : {E : Type ℓ} {F : Type κ} {A : Type ι} → (E → F) → Exec E A → Exec F A
map_err f (ok a) = ok a
map_err f (err e) = err (f e)
map_err f panic = panic
