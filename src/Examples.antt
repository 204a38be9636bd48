-- ===== src/Examples.antt =====
-- Tests, and the theorems at concrete data.
mod Host
mod Device
mod Desktop
mod Runs
mod Frames
mod CommandLines
mod Sessions
mod Tool
mod Stops
