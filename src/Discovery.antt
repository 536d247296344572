-- ===== src/Discovery.antt =====
-- app/engine/discovery: what is observed of a turn (models.py) and the flow graph (graph.py),
-- and who explores (explorer.py).
pub mod Observation
pub mod Graph
pub mod Explorer
