-- ===== src/Metrics.antt =====
-- app/engine/metrics: the metrics that an agent's runs are scored with (resolver.py), and how they are
-- dispatched and answered at the end of a call (compiler.py). The sandbox that runs a metric's code is
-- not modelled: what it returns is an argument.
pub mod Resolver
pub mod Precedence
pub mod Compiler
pub mod Complete
