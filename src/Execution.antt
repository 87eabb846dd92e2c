-- ===== src/Execution.antt =====
-- src/rule.cpp: how rules are compiled and executed. See the children.
pub mod Key
pub mod Cache
pub mod World
pub mod Compile
pub mod Run
