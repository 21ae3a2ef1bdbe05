-- ===== src/Examples.antt =====
-- Runs of the program's parts, and the theorems at those runs.
mod Redactor
mod States
mod Deployments
mod Workflows
mod Tokens
mod Logs
mod Auth
mod Config
mod Runtime
mod Scheduler
