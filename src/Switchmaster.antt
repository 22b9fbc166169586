-- ===== src/Switchmaster.antt =====
-- switchmaster/src/Jaspy.Switchmaster/ClientApp/src: the page that shows where each switch is.
pub mod Store
pub mod Panel
pub mod Client
