-- ===== src/Campaigns.antt =====
-- Campaigns, from creation to withdrawal: src/campaigns/.
pub mod Create
pub mod Withdraw
pub mod Cancel
pub mod Transfer
pub mod Update
