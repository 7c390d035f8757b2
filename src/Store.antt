-- ===== src/Store.antt =====
-- The contract's storage (src/storage.rs): a record for each enum of keys, with a field for each
-- key. An absent entry is `none`. A key that a getter reads with `unwrap_or` keeps its `Option`
-- here, and the getter writes the default out. An entry that cannot be decoded (`get_campaign`)
-- counts as absent. Lifetimes of entries are not modelled: the host restores archived entries.
mod Record
mod Admin
mod Campaigns
mod Indexes
mod Contributions
mod Voting
mod Empty
pub use Record.*
pub use Admin.*
pub use Campaigns.*
pub use Indexes.*
pub use Contributions.*
pub use Voting.*
pub use Empty.*
