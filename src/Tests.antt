-- ===== src/Tests.antt =====
-- The theorems at concrete inputs.
mod Bench
mod Checker
mod Helpers
mod Dbus
mod Program
mod Core
