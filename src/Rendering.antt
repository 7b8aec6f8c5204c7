-- ===== src/Rendering.antt =====
-- packages/rendering: what the pages show of the records.
pub mod ChangeTrace
