-- ===== src/Executor/Samples.antt =====
-- Runs of the engine at small inputs, and the theorems at them.
mod Schedules
mod Verdicts
