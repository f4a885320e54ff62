-- ===== src/Examples.antt =====
-- Runs of the modelled code on concrete inputs: a small file system image, a shell, and devices and
-- screens in a known state.
mod Image
mod Processes
mod Devices
mod Screens
mod Programs
mod Areas
mod Commands
mod Clients
mod Booting
