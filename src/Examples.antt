-- ===== src/Examples.antt =====
-- Concrete runs: tests of the definitions, and the theorems at inputs that meet their hypotheses.
mod Times
mod Packets
mod Managers
mod Hits
mod Observers
mod Texts
mod Tables
mod Modules
mod Requests
mod Handshakes
mod Places
mod Overtaken
mod Values
mod Configurations
mod Commands
mod Starts
mod Lines
mod Scans
mod Messages
