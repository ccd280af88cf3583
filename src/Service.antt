-- ===== src/Service.antt =====
-- internal/service/auth/service.go over the interfaces that it calls.
pub mod Ports
pub mod Validation
pub mod Chain
pub mod Flows
pub mod Login
pub mod Registration
pub mod Memory
pub mod Opening
pub mod Sessions
pub mod Caches
