-- ===== src/Tests.antt =====
-- Runs of the model on a small map: sample worlds and numbers, and the theorems at them.
mod Sample
mod Map
mod Devices
mod Webui
mod Switchmaster
