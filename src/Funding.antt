-- ===== src/Funding.antt =====
-- The money that the contract holds: contributions, refunds, withdrawals and revenue.
pub mod Books
pub mod Totals
pub mod Batches
pub mod Payouts
pub mod Shares
pub mod Reserve
pub mod Milestones
pub mod Sums
pub mod Distribution
pub mod Guard
