-- ===== src/Machine.antt =====
-- The state that the functions of the library share, and the monad in which they are written. What
-- the code calls outside this repository (the C library, the kernel, the other contexts behind
-- `_switch`) and the red-black trees of tree.h, a copied library, are the parameter `Env`.
mod Monad
mod World
mod Access
mod Laws
mod Cells
pub use Monad.*
unfoldable pub use World.*
pub use Laws.*
pub use Cells.*
unfoldable pub use Access.*
