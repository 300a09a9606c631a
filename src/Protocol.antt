-- ===== src/Protocol.antt =====
-- The data of src/protocol and src/context.rs. An `Arc` is what it points to: nothing behind one
-- is ever written.
mod Types
mod Transactions
mod Blocks
pub use Types.*
unfoldable pub use Transactions.*
unfoldable pub use Blocks.*
