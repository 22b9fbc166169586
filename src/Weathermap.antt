-- ===== src/Weathermap.antt =====
-- weathermap/js: the topology map that runs in the browser.
pub mod Numbers
pub mod Util
pub mod Keyboard
pub mod Interface
pub mod World
pub mod Config
pub mod Link
pub mod LinkGroup
pub mod Effect
pub mod Device
pub mod DeviceGraph
pub mod App
