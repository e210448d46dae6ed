-- ===== src/Noise/Method.antt =====
-- Methods of an object with `&mut self` that return a `Result`: an error keeps what was changed
-- before it.
use microfips.Base.{Option, none, some}
use microfips.Exec.{Exec, ok, err, panic, map_err}

abbrev pub Method : Type 0 → Type 0 → Type 0 → Type 0
Method E S A = S → Exec E A × S

-- What follows a call that has ended in this way.
abbrev pub next : {E S A B : Type 0} → Exec E A × S → (A → Method E S B) → Exec E B × S
next (ok a, s) f = f a s
next (err e, s) f = (err e, s)
next (panic, s) f = (panic, s)

infixl 5 ◌>>=◌ ◌>>◌
abbrev pub ◌>>=◌ : {E S A B : Type 0} → Method E S A → (A → Method E S B) → Method E S B
◌>>=◌ m f s = next (m s) f

abbrev pub ◌>>◌ : {E S B : Type 0} → Method E S (Unit {0}) → Method E S B → Method E S B
m >> k = m >>= λ _. k

abbrev pub pure : {E S A : Type 0} → A → Method E S A
pure a s = (ok a, s)

abbrev pub fail : {E S A : Type 0} → E → Method E S A
fail e s = (err e, s)

abbrev pub lift : {E S A : Type 0} → Exec E A → Method E S A
lift r s = (r, s)

abbrev pub modify : {E S : Type 0} → (S → S) → Method E S (Unit {0})
modify f s = (ok tt, f s)

abbrev pub reads : {E S A : Type 0} → (S → A) → Method E S A
reads f s = (ok (f s), s)

-- A method of a field of the object.
abbrev pub within : {E S T A : Type 0} → (S → T) → (S → T → S) → Method E T A → Method E S A
within get put m s = let r = m (get s) in (r.0, put s r.1)

-- `ok_or(e)?`
abbrev pub required : {E S A : Type 0} → E → Option A → Method E S A
required e none = fail e
required e (some a) = pure a

-- `unwrap()`
abbrev pub unwrapped : {E S A : Type 0} → Option A → Method E S A
unwrapped none = lift panic
unwrapped (some a) = pure a

-- `map_err(|_| e)`
abbrev pub replace_err : {E A : Type 0} → E → Exec E A → Exec E A
replace_err e (ok a) = ok a
replace_err e (err _) = err e
replace_err e panic = panic

-- The result of a call that is awaited with `?`, with the object as the call leaves it.
abbrev pub received : {E S A : Type 0} → Exec E A × S → Exec E (A × S)
received (ok a, s) = ok (a, s)
received (err e, s) = err e
received (panic, s) = panic

-- A call with `map_err(|_| e)`.
abbrev pub replacing : {E S A : Type 0} → E → Method E S A → Method E S A
replacing e m s = let r = m s in (replace_err e r.0, r.1)

-- A call whose error is converted.
abbrev pub converting : {E F S A : Type 0} → (E → F) → Method E S A → Method F S A
converting f m s = let r = m s in (map_err f r.0, r.1)

-- `let _ = call`: an error is dropped.
abbrev pub dropped : {E A : Type 0} → Exec E A → Exec E (Unit {0})
dropped (ok a) = ok tt
dropped (err e) = ok tt
dropped panic = panic

abbrev pub ignoring : {E S A : Type 0} → Method E S A → Method E S (Unit {0})
ignoring m s = let r = m s in (dropped r.0, r.1)
