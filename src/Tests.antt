-- ===== src/Tests.antt =====
-- Runs at concrete inputs, and the theorems applied where their hypotheses hold.
mod Toy
mod Ltram
mod Smoke
mod Stl
mod Tbb
mod TbbLocks
mod Db
mod Redis
mod Server
mod Zipfian
mod Client
mod FromInit
mod CommandLine
mod Matmul
mod Init
mod Lock
mod Threads
mod RwStress
mod Numa
mod Main
mod Loaded
mod Race
mod Clients
mod Run
mod RunIdle
