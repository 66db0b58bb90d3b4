-- ===== src/Tests.antt =====
-- Concrete parts for the outside, and the theorems at inputs that meet their hypotheses.
mod Outside
mod Codec
mod Machinery
mod Worlds
mod Steady
mod Commits
mod Manifests
mod Stores
mod Sweeps
mod Updates
mod Rebase
mod Compactions
mod Migrations
mod Transfers
mod Rests
mod Follows
mod Workflow
mod Digests
mod Bucket
mod Files
mod Directory
mod Options
mod Targets
mod Openings
