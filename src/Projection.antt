-- ===== src/Projection.antt =====
-- civicpatch.org/src/core/projection: the fold from filed facts to the published roster.
pub mod Facts
mod Samples
pub mod Town
pub mod LiveFacts
pub mod CanonicalIds
pub mod FieldValue
pub mod Reads
pub mod Memberships
pub mod AsOf
pub mod PersonIds
pub mod History
pub mod Clusters
pub mod Roles
pub mod Posts
pub mod Shared
pub mod Names
pub mod People
pub mod Partial
pub mod PostMerges
pub mod Roster
pub mod Diff
pub mod Rebuilds
