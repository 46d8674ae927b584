-- ===== src/Examples.antt =====
-- The theorems at concrete inputs, and runs of the definitions.
mod Stores
mod Requests
mod Timers
mod Loads
mod Databases
mod Visits
mod Restart
mod Programs
mod Redis
mod Goroutines
mod Concurrent
mod Applications
mod Writers
