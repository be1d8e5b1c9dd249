-- ===== src/Dashboard.antt =====
-- dashboard/src: the browser's side.
pub mod Socket
pub mod Api
pub mod QueueDetail
pub mod JobDetail
pub mod DlqInspector
pub mod JobTable
pub mod ThroughputChart
pub mod Feed
