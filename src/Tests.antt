-- ===== src/Tests.antt =====
-- Test data, and each result applied at a concrete input.
mod Sample
mod NatSample
mod Zones
mod Rules
mod Forwards
mod Ipsets
mod Defaults
mod Utils
mod Parse
mod Expand
mod Helpers
mod Redirects
mod Snats
mod Load
mod Main
