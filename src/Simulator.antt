-- ===== src/Simulator.antt =====
-- The simulator: simulator/.
pub mod Config
pub mod Device
pub mod Fleet
mod Tests
