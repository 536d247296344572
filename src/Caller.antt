-- ===== src/Caller.antt =====
-- app/engine/caller: the transcript of a call (persona.py) and what is measured of it (latency_clock.py).
pub mod Transcript
pub mod Persona
pub mod Clock
pub mod Answers
pub mod Latencies
