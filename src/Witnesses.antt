-- ===== src/Witnesses.antt =====
-- The theorems at concrete inputs, where their hypotheses hold.
mod Backends
mod Frontends
mod Hegel
mod Lifetime
mod Logged
mod Process
mod Proxies
mod Routes
mod Running
mod Samples
mod Served
mod Server
mod Trusted
mod Settings
mod Started
