-- ===== src/Listing.antt =====
-- What the lists that the contract answers with are, against the campaigns in storage.
pub mod Ranges
pub mod Pages
pub mod Buckets
pub mod Categories
pub mod Stuck
pub mod Actives
pub mod Answers
pub mod Portfolios
pub mod Totals
