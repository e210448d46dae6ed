-- ===== src/Exec/Buffer.antt =====
-- Indexing and slicing as Rust does them, with the panic on a range that does not fit. They are
-- shut: `Exec/Laws.antt` says what each gives.
use microfips.Base.{ℕ, ◌+◌, ◌-◌, List, ◌++◌, length, get_or, set, take, drop, ltb, leb, ◌==◌}
use microfips.Base.{◌&&◌, if◌then◌else◌}
use microfips.Bytes.{from_le}
use microfips.Exec.Monad.{Exec, ok, panic, ◌>>=◌}

-- `buf[i]`
unfoldable pub index {ℓ} : {E : Type ℓ} → List ℕ → ℕ → Exec E ℕ
index buf i = if ltb i (length buf) then ok (get_or buf i 0) else panic

-- `buf[i] = v`
unfoldable pub store {ℓ} : {E : Type ℓ} → List ℕ → ℕ → ℕ → Exec E (List ℕ)
store buf i v = if ltb i (length buf) then ok (set buf i v) else panic

-- `buf[a..b]`
unfoldable pub slice {ℓ} : {E : Type ℓ} → List ℕ → ℕ → ℕ → Exec E (List ℕ)
slice buf a b = if leb a b && leb b (length buf) then ok (take (b - a) (drop a buf)) else panic

-- `buf[a..]`
unfoldable pub slice_from {ℓ} : {E : Type ℓ} → List ℕ → ℕ → Exec E (List ℕ)
slice_from buf a = if leb a (length buf) then ok (drop a buf) else panic

-- `from_le_bytes(buf[a..b].try_into()…)`: the conversion cannot fail at the fixed width `b - a`.
unfoldable pub read_le {ℓ} : {E : Type ℓ} → List ℕ → ℕ → ℕ → Exec E ℕ
unfolding slice
read_le buf a b = do bytes ← slice buf a b; ok (from_le bytes)

-- The buffer after `src` is written at `a`.
abbrev pub overwrite : List ℕ → ℕ → List ℕ → List ℕ
overwrite buf a src = take a buf ++ (src ++ drop (a + length src) buf)

-- `buf[a..b].copy_from_slice(src)`, which also panics where the lengths differ.
unfoldable pub copy_into {ℓ} : {E : Type ℓ} → List ℕ → ℕ → ℕ → List ℕ → Exec E (List ℕ)
copy_into buf a b src =
    if leb a b && leb b (length buf) && (b - a) == length src
    then ok (overwrite buf a src)
    else panic
