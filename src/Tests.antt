-- ===== src/Tests.antt =====
-- Runs of the definitions, and the theorems at concrete inputs.
mod Predictors
mod Schedulers
mod Passes
mod Configs
mod Connections
mod Processes
mod Trackers
mod Wires
mod SchedulerWires
mod Monitors
mod Startups
mod Options
mod Sessions
mod Tokens
mod Starts
mod Deadlines
mod Limits
mod ResourceFiles
mod Usages
mod Symbols
mod Quotas
mod Network
mod Launches
mod Hooks
mod PodManagers
mod Messages
