-- ===== src/Tests.antt =====
-- Runs on concrete inputs, and each theorem with hypotheses at an input that meets them.
pub mod Worker
pub mod Table
pub mod Whole
pub mod Mixer
pub mod Orders
pub mod Connection
mod Buffer
pub mod Arrays
pub mod Files
mod Work
pub mod Reading
mod Window
mod Ordered
