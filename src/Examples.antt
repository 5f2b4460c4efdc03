-- ===== src/Examples.antt =====
-- Tests on concrete inputs, and the instances of the theorems, for each part of the server.
mod Races
mod Process
mod Messages
mod Connections
mod Servers
mod Whole
mod Options
mod Client
mod CommandLine
mod Listening
