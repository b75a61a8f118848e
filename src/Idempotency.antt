-- ===== src/Idempotency.antt =====
-- The idempotency keys of internal/api/middleware/idempotency.go and their table in
-- internal/storage/sqlite/idempotency_repo.go, or of Postgres; the proofs are in the modules below.
pub mod Store
pub mod Postgres
pub mod Middleware
pub mod Uniqueness
