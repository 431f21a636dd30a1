-- ===== src/Hierarchy.antt =====
-- The hierarchy organization, product, project, environment, region, cloud account:
-- backend/internal/api/handlers_hierarchy.go.
pub mod Prune
pub mod Cascade
