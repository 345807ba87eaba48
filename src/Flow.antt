-- ===== src/Flow.antt =====
-- odp/flow.go: flow keys, actions and flows.
pub mod Blob
pub mod Key
pub mod Keys
pub mod Parse
pub mod Action
pub mod Spec
pub mod Setters
pub mod Requests
pub mod Written
