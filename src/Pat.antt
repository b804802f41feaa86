-- ===== src/Pat.antt =====
-- Personal access tokens: src/cimd_proxy/pat.py, pat_format.py, pat_store.py and keycloak.py.
pub mod Record
pub mod Schema
pub mod Uuid
pub mod Format
pub mod Create
pub mod Table
pub mod Text
pub mod Exchange
pub mod Authenticate
pub mod Manage
pub mod Datetime
pub mod Api
