-- ===== src/Security.antt =====
-- backend/internal/security.js: the core of HYROVI Sec.
pub mod Targets
pub mod Events
pub mod Autopilot
pub mod Escalation
pub mod Responses
pub mod Enforcement
pub mod Effective
pub mod HostContext
pub mod Monitor
pub mod Rules
pub mod Endpoints
pub mod Policy
