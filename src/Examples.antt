-- ===== src/Examples.antt =====
-- Concrete workflows, limiters and expressions, and what the theorems say of them.
mod Limits
mod Levels
mod Parallel
mod Patterns
mod Outcomes
mod Runs
mod Caching
mod Inputs
mod Versions
mod Sharing
mod Threads
mod Chains
mod Limited
mod Guard
mod Shapes
mod Traces
mod Checked
mod Documents
