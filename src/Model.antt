-- ===== src/Model.antt =====
-- The model library of Tinia: src/model and include/tinia/model.
pub mod Errors
pub mod Types
pub mod ElementData
pub mod Factory
pub mod Trees
pub mod Annotations
pub mod Listeners
pub mod Layout
pub mod Exposed
