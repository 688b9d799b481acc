-- ===== src/Engine/Tests.antt =====
-- Small states and messages of the engine, at which its theorems are applied.
mod States
mod Levels
mod Runs
