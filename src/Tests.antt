-- ===== src/Tests.antt =====
-- Runs of the definitions on small inputs, and the theorems at concrete arguments.
mod Bucket
mod Fixture
mod Serving
mod Jobs
mod Pools
mod Fetches
mod Sources
mod Repacks
mod Servers
mod Commands
mod Copies
