-- ===== src/Render/Agreement.antt =====
-- The route tester decides as the node does.
pub mod Matchers
pub mod Nodes
pub mod Tester
pub mod Members
pub mod Policies
pub mod Lists
pub mod Foreign
pub mod Isolation
pub mod Resolved
pub mod Prepared
pub mod Whole
pub mod Valid
