-- ===== src/Kernel.antt =====
-- The global state of the kernel: the tables of uzi-nes-port/include/unix.h and kernel/kdata.c, and
-- the monad in which the routines that change them are written.
mod Types
mod Monad
pub mod Bytes
pub mod Returns
pub mod Memory
pub use Types.*
pub use Monad.*
