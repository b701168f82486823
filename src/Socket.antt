-- ===== src/Socket.antt =====
-- uthread_socket.c: socket calls that block only the uthread. Each loop runs on fuel; the buffers are
-- known by how far they are filled or sent. The calls that the file makes by plain name (`recv`,
-- `send`, `writev` and their like) are whatever the program links there, the parameter `Linked`;
-- those that it takes from `dlsym` go to the C library.
pub mod Linked
pub mod Once
pub mod Exact
pub mod Vector
pub mod Transfer
pub mod Write
unfoldable pub use Once.*
unfoldable pub use Exact.*
unfoldable pub use Vector.*
