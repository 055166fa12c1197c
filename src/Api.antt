-- ===== src/Api.antt =====
-- frontend/src/api: the requests of the services, the axios instance with its interceptor, and the
-- settings of a device.
pub mod Request
pub mod Services
pub mod Session
pub mod Settings
mod Tests
