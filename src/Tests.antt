-- ===== src/Tests.antt =====
-- Runs of the definitions, and the theorems at concrete data.
mod Samples
mod Resource
mod Parameters
mod Processor
mod Backends
mod Trees
mod Command
mod Login
mod Redis
mod Functions
mod Watches
mod Rendering
mod Onetime
mod Runs
mod Together
mod Log
mod Reports
mod Environment
mod Etcd
