-- ===== src/Demo.antt =====
-- demo/adapter/adapter.go: the read model of the dashboard, which is made from the view and the events of
-- a run. The children hold its functions and their laws.
pub mod Events
pub mod Analysis
pub mod Graph
pub mod Frames
pub mod Marks
pub mod Gains
pub mod Signals
pub mod Polls
