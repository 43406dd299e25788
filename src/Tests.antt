-- ===== src/Tests.antt =====
-- The theorems at concrete inputs.
mod Encoding
mod Http
mod Gates
mod Caches
mod Proxies
mod Policies
mod Clients
mod Pools
mod Exchanges
mod Routings
mod Profiles
