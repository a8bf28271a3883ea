-- ===== src/Tests.antt =====
-- Tests of the definitions, and the theorems at concrete inputs.
mod Hosts
mod Frames
mod Executions
mod Workspaces
mod Admissions
mod Files
mod Storages
mod Queues
mod Lifecycles
mod Outputs
