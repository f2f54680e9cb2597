-- ===== src/Hegel.antt =====
-- internal/frontend/hegel: the handlers of the experimental API, and the model of its data. The
-- files carry the build tag `ignore`, so they are kept beside the program and not linked into it.
pub mod Model
pub mod Handlers
pub mod Indices
pub mod Networks
pub mod Selection
pub mod NotFound
pub mod Interfaces
pub mod Endpoints
