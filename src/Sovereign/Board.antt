-- ===== src/Sovereign/Board.antt =====
-- src/sovereign/board.ts: the views of the task board, each derived from the envelopes it holds.
mod Store
mod Views
mod Verdict
pub mod Order
pub mod Backed
pub mod Votes
pub mod Voted
pub mod Accepted
pub mod Entities
pub mod Chained
pub mod Announced
unfoldable pub use Store.*
unfoldable pub use Views.*
unfoldable pub use Verdict.*
