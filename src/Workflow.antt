-- ===== src/Workflow.antt =====
-- src/workflow.cpp and include/fastrules/workflow.hpp.
pub mod Levels
pub mod Compilation
pub mod Parallel
pub mod Shape
pub mod Runs
pub mod Traces
