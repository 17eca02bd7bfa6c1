-- ===== src/Tonic.antt =====
-- des-tonic: the gRPC transport's wire format.
pub mod Wire
