-- ===== src/Fetch.antt =====
-- src/aedifex/acquisition/fetch: how the crawler asks a source for something.
-- Time is a whole number of ticks (`Timing`).
pub mod Timing
pub mod Addresses
pub mod Hosts
pub mod Urls
pub mod Guard
pub mod Retry
pub mod Controller
pub mod RateLimit
pub mod Redirects
pub mod RedirectController
pub mod Slots
