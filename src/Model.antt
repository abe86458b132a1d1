-- ===== src/Model.antt =====
-- internal/core/model: the domain model from which node configs are rendered.
pub mod Node
pub mod Account
pub mod Policy
pub mod Order
pub mod State
pub mod Settings
