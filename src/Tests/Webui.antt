-- ===== src/Tests/Webui.antt =====
-- Runs of the web interface's functions: sample data, and the theorems at it.
pub mod Browser
mod Controls
mod Stp
mod Live
mod Issues
mod Pages
mod Device
mod Upkeep
