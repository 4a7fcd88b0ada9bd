-- ===== src/Tests.antt =====
-- Runs of the theorems on concrete requests, responses and storages.
pub mod Data
mod Storages
mod Tags
mod Freshness
mod Keys
mod Administration
mod Responses
mod Serving
mod Sharing
mod Configuration
mod Caddy
mod Insertions
mod Json
