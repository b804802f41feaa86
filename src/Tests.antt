-- ===== src/Tests.antt =====
-- Runs of the program on concrete inputs.
mod Fernet
mod Setup
mod Exchange
mod Discovery
mod Manage
mod Config
mod Cli
mod Start
mod Facts
mod Handled
mod Parts
mod Witnesses
