-- ===== src/Examples.antt =====
-- Small machines, and the properties applied to them.
mod Machines
mod Memory
mod Frames
mod Environments
mod Scheduling
mod Calls
mod Booting
mod Trapping
mod Spinning
mod Text
mod Formats
mod Loading
mod Typing
mod Sharing
mod Devices
