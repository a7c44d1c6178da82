-- ===== src/HttpApi.antt =====
-- HttpAPI: requests to web services, with retries.
pub mod Context
pub mod Api
pub mod Registry
pub mod Attempt
pub mod Ongoing
pub mod Retries
mod Tests
