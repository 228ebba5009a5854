-- ===== src/Tests.antt =====
-- Runs of the model on concrete inputs, and the theorems at inputs that meet their hypotheses.
mod Analysis
mod Crawl
mod Domain
mod Fetch
mod Filling
mod Guard
mod Provisions
mod RateLimit
mod Redirects
mod Robots
mod RobotsFile
mod RobotsGate
mod Runner
mod Slots
mod Storage
