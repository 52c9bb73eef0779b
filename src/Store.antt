-- ===== src/Store.antt =====
-- fs/zbd_zenfs.h: the objects of the program, the heap that holds them, and the calls on it.
mod Types
mod Monad
pub mod Frame
pub mod Preserve
pub use Types.*
unfoldable pub use Monad.*
