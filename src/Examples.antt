-- ===== src/Examples.antt =====
-- Concrete runs of the code, and the theorems at inputs that meet their hypotheses.
mod Versions
mod Devices
mod Updates
mod Streaming
mod Store
mod Opening
mod Fleet
mod Reports
mod Live
mod Ingesting
mod Readback
mod Serving
