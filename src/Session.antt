-- ===== src/Session.antt =====
-- Sessions: their metadata, data, stores, and the handler of pkg/session.
pub mod Metadata
pub mod Data
pub mod Store
pub mod Id
pub mod Handler
