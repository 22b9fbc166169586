-- ===== src/Webui.antt =====
-- nexus/webui/src: the web interface of nexus.
pub mod Text
pub mod Types
pub mod Patterns
pub mod IssueTypes
pub mod Platform
pub mod LiveLog
pub mod Discovery
pub mod DeviceDetail
pub mod Client
pub mod App
pub mod Maintenance
pub mod Badges
pub mod Parts
pub mod Overview
pub mod ActionMenu
pub mod DeviceTypes
pub mod Tables
pub mod Times
pub mod Grouping
pub mod Issues
pub mod StpPath
pub mod StpPage
pub mod LiveSocket
