-- ===== src/Governance.antt =====
-- Votes, the terms of a campaign, and the hand-over of the administration and of the token.
pub mod Votes
pub mod Checks
pub mod Terms
pub mod Handover
pub mod Plans
