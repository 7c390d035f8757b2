-- ===== src/Invariant.antt =====
-- The invariant of the stored campaigns and of the settings that they rely on, which every entry
-- point of src/lib.rs keeps.
mod Defs
pub mod Untouched
pub mod Funds
pub mod Ends
pub mod Payouts
pub mod Edits
pub mod Verify
pub mod Settings
pub mod Loops
pub mod Shares
pub mod Creation
pub mod Steps
pub mod History
pub use Defs.*
