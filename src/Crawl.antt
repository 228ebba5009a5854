-- ===== src/Crawl.antt =====
-- src/aedifex/acquisition/crawl: what is visited next, and whether it may be.
pub mod Frontier
pub mod Robots
pub mod RobotsFile
pub mod RobotsGate
pub mod Runner
