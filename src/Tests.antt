-- ===== src/Tests.antt =====
-- Runs of the definitions at concrete inputs, and the properties at inputs that meet their
-- hypotheses.
mod Opened
mod Sse
mod Tools
mod Server
mod Http
mod Routing
mod Paged
mod CallText
mod Schema
mod Budget
mod Cache
mod Snapshots
mod Models
