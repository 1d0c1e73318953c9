-- ===== src/Sanitize.antt =====
-- Text made safe before it is shown or becomes part of a path:
-- internal/pathutil/sanitize.go and internal/out/sanitize.go.
pub mod Path
pub mod Human
mod Examples
