-- ===== src/Exec.antt =====
-- The outcome of a call in Rust: a value, a returned error, or a panic (an index or a slice out of
-- range, a failed assertion). Slices and buffers are lists of bytes; a function that writes through
-- `&mut [u8]` returns the buffer as it leaves it.
mod Monad
mod Buffer
pub mod Laws
pub mod Write
pub mod Post
pub use Monad.{Exec, ok, err, panic, Absent, absent, IsNotPanic, map_err}
pub use Monad.{◌>>=◌}
unfoldable pub use Buffer.*
