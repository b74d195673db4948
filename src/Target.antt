-- ===== src/Target.antt =====
-- internal/target: what target.yaml says of a target. Here the paths that its equalIgnore names.
pub mod Path
