-- ===== src/Redteam.antt =====
-- app/engine/redteam: the planner that works an attack pack line by line (attacker.py).
pub mod Attacker
pub mod Script
pub mod Judge
pub mod Grounded
