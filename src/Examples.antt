-- ===== src/Examples.antt =====
-- Tests, and the theorems at concrete inputs.
mod Wire
mod Links
mod Messages
mod Sessions
mod Devices
mod Secrets
mod Settings
mod Sockets
mod Programs
mod Talks
mod Threads
