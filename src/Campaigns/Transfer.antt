-- ===== src/Campaigns/Transfer.antt =====
-- Transfer of a campaign to a new creator: src/campaigns/transfer.rs.
use proof_of_heart_stellar.Prelude.{
  ◌==◌, is_some, length, get_elem?, is_empty, set, drop_last, index_of, ℕ, zero, suc, ◌+◌, ◌-◌, ◌/◌,
  Bool, false, not, Option, none, some, List,
}
use proof_of_heart_stellar.Types.{Address}
use proof_of_heart_stellar.Types.Limits.{creator_campaigns_bucket_size}
use proof_of_heart_stellar.Types.Error.{
  campaign_not_active, validation_failed, no_transfer_pending, invalid_new_owner,
  transfer_already_pending,
}
use proof_of_heart_stellar.Host.{Host}
use proof_of_heart_stellar.Store.{
  State, get_creator_campaign_count, set_creator_campaign_count, get_creator_campaign_bucket,
  set_creator_campaign_bucket, get_creator_campaign_position, set_creator_campaign_position,
  remove_creator_campaign_position, set_campaign_creator_index, set_campaign,
}
use proof_of_heart_stellar.Action.{
  Action, Done, gets, ok_or, ◌>>=◌, ◌>>◌, modify, reject_if, when, require_auth,
}
use proof_of_heart_stellar.Lifecycle.{
  get_campaign_or_error, get_creator_campaign, require_active_campaign, require_not_paused,
}
use proof_of_heart_stellar.Campaigns.Create.{index_by_creator}

-- The scan of the buckets for campaigns with no recorded position: `fuel` buckets are left.
unfoldable pub scan_buckets : Address → ℕ → ℕ → ℕ → State → Option (ℕ × ℕ)
scan_buckets creator id zero bucket_idx s = none
scan_buckets creator id (suc left) bucket_idx s =
    let rest = scan_buckets creator id left (suc bucket_idx) s in
    elim (index_of id (get_creator_campaign_bucket creator bucket_idx s)) [
      | none ↦ rest
      | some slot_idx ↦ some (bucket_idx, slot_idx)
    ]

unfoldable pub get_creator_campaign_position_or_legacy_scan :
    Address → ℕ → ℕ → State → Option (ℕ × ℕ)
get_creator_campaign_position_or_legacy_scan creator id campaign_count s =
    elim (get_creator_campaign_position creator id s) [
      | some position ↦ some position
      | none ↦
          scan_buckets creator id
            ((campaign_count + (creator_campaigns_bucket_size - 1)) / creator_campaigns_bucket_size)
            0 s
    ]

unfoldable pub initiate_campaign_transfer : Host → ℕ → Address → Action Done
initiate_campaign_transfer env id new_creator = do
  campaign ← get_creator_campaign env id
  require_not_paused
  require_active_campaign campaign
  reject_if campaign.funds_withdrawn campaign_not_active
  reject_if (new_creator == campaign.creator) invalid_new_owner
  reject_if (is_some campaign.pending_creator) transfer_already_pending
  modify (set_campaign id (record campaign { pending_creator = some new_creator }))

-- `bucket.get(slot) == Some(id)`
abbrev pub holds_at : ℕ → ℕ → List ℕ → Bool
holds_at slot id bucket = elim (get_elem? bucket slot) [ none ↦ false | some x ↦ x == id ]

-- Swap removal from the old creator's bucket.
unfoldable pub unindex_creator : Address → ℕ → Action Done
unindex_creator creator id = do
  count ← gets (get_creator_campaign_count creator)
  found ← gets (get_creator_campaign_position_or_legacy_scan creator id count)
  position ← ok_or validation_failed found
  bucket ← gets (get_creator_campaign_bucket creator position.0)
  reject_if (is_empty bucket) validation_failed
  reject_if (not (holds_at position.1 id bucket)) validation_failed
  let last_slot_idx = length bucket - 1
  last_campaign_id ← ok_or validation_failed (get_elem? bucket last_slot_idx)
  when (not (position.1 == last_slot_idx))
      (modify (set_creator_campaign_position creator last_campaign_id position))
  modify (
      set_creator_campaign_bucket creator position.0
        (drop_last (set bucket position.1 last_campaign_id)))
  modify (remove_creator_campaign_position creator id)
  modify (set_creator_campaign_count creator (count - 1))

unfoldable pub accept_campaign_transfer : Host → ℕ → Action Done
accept_campaign_transfer env id = do
  campaign ← get_campaign_or_error id
  require_active_campaign campaign
  require_not_paused
  pending ← ok_or no_transfer_pending campaign.pending_creator
  require_auth env pending
  reject_if (pending == campaign.creator) invalid_new_owner
  unindex_creator campaign.creator id
  index_by_creator pending id
  modify (set_campaign_creator_index id pending)
  modify (set_campaign id (record campaign { creator = pending; pending_creator = none }))

unfoldable pub cancel_campaign_transfer : Host → ℕ → Action Done
cancel_campaign_transfer env id = do
  campaign ← get_creator_campaign env id
  require_not_paused
  _ ← ok_or no_transfer_pending campaign.pending_creator
  modify (set_campaign id (record campaign { pending_creator = none }))
