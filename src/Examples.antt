-- ===== src/Examples.antt =====
-- Tests of the models, and concrete inputs at which the theorems apply.
mod Answers
mod Calls
mod Entries
mod Images
mod Library
mod Proxies
mod Races
mod Protocols
mod Runs
mod Session
mod Tokens
