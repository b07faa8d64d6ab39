-- ===== src/Tests.antt =====
-- The theorems at concrete inputs.
mod Samples
mod Machine
mod Parts
mod Calls
mod Writes
mod Archives
mod Awaits
mod Sinks
mod Reads
mod Sends
mod Roundtrips
mod Stuck
