-- ===== src/Examples.antt =====
-- The schedule, the gate, the guard, the ladder, the log and the spool on concrete inputs.
mod Gates
mod Ladders
mod Logs
mod Plans
mod Spool
mod Supervisors
