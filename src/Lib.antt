-- ===== src/Lib.antt =====
-- Verification of the Proof of Heart contract (src/lib.rs and the modules beside it): crowdfunding
-- campaigns on Soroban, with contributions, refunds, withdrawals, milestones, revenue sharing,
-- community votes and an administration.
--
-- The program keeps everything in the host's storage. Each function of src/lib.rs is one call: it
-- checks who signed, reads and writes entries, asks token contracts for transfers, and returns a
-- value, an error code or a panic. The model follows this: `Store` has the storage as a record with
-- a field for each key, and `Action` a call as a function from a state to an outcome: `ok` with the
-- new state, `err` with the code and what had been written, or `trap`. `invoke` keeps the new state
-- of a call that returned and discards that of any other, as the host does.
--
-- Which file models what:
--   Types, Types.Error, Types.Limits   src/types.rs, src/errors.rs, src/constants.rs, the limits
--   Store and its children             src/storage.rs, getters and setters under their own names
--   Host                               the Soroban host and the token contracts, as parameters
--   Lifecycle                          src/lifecycle.rs
--   Contributions, Contributions.Batch src/contributions.rs
--   Campaigns.Create, Withdraw, Cancel, Update, Transfer   the files of src/campaigns/
--   Milestones, Revenue, Voting, Bookmarks                 the files of these names
--   Moderation                         src/comments.rs, src/tags.rs
--   Admin, Admin.Settings              src/admin.rs
--   Calls                              the calls of src/lib.rs that change the storage
--   Queries, Queries.Stats, Queries.Portfolio              src/queries.rs
--   Views                              the other reads of src/lib.rs that do more than pass on an entry
-- An operation has the name of its function; a part of a long function is a definition of its own,
-- named for what it does. Contributions.Effects, Invariant, Safety, Funding and Governance hold the
-- proofs about the storage, the money and the rules. Registry takes the campaigns as an abstract
-- machine: every call is a number of moves, each of which leaves them alone, changes one or enters
-- one, and what moves keep, histories of calls keep. Listing compares the queries with the
-- campaigns in storage, Roundtrips has calls that undo each other, and Tests runs the contract on
-- concrete inputs.
--
-- Integers: an i128 is an integer whose checked operations return `none` out of range; a u32 or a
-- u64 is a natural number with the same care. The release profile of Cargo.toml keeps the overflow
-- checks on, so a plain operator that overflows is a `trap`. Addresses and hashes are only compared,
-- so they are numbers; a text is the list of its bytes. Loops over lists are structural, and a
-- loop over ids is a recursion on how many are left. Only the traversal of buckets in
-- src/queries.rs need not end; it is on fuel and says so when the fuel is gone. A page has at most
-- 50 campaigns and each turn over full buckets takes at least one, so 50 turns are enough there.
--
-- The host and the token contracts are parameters: who has signed, the time, the hash, and whether
-- a transfer is carried out and what a balance is, as any function of the transfers made so far. A
-- token contract that calls back into this one is not modelled. An entry that cannot be decoded
-- counts as absent.
--
-- Not modelled: events, which are output only; lifetimes of storage entries, which the host
-- restores; the library under vendor/, fuzz targets, tests and scripts.
pub mod Prelude
pub mod Types
pub mod Host
pub mod Store
pub mod Action
pub mod Lifecycle
pub mod Contributions
pub mod Revenue
pub mod Voting
pub mod Campaigns
pub mod Milestones
pub mod Bookmarks
pub mod Moderation
pub mod Admin
pub mod Calls
pub mod Registry
pub mod Queries
pub mod Views
pub mod Listing
pub mod Roundtrips
pub mod Safety
pub mod Funding
pub mod Governance
pub mod Invariant
pub mod Tests
