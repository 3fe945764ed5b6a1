-- ===== src/Service.antt =====
-- service/: deduplication, settlement, the ingestion pipeline and the mesh.
pub mod Idempotency
pub mod Settlement
pub mod Bridge
pub mod Mesh
