-- ===== src/Examples.antt =====
-- The theorems at concrete inputs, in fixed point arithmetic: a bench with one chassis of two channels.
mod Samples
mod CyclerRuns
mod OrchestratorRuns
mod WatchdogRuns
mod ScheduleRuns
mod IngesterRuns
mod ExportRuns
mod AnalyticsRuns
mod ChamberRuns
mod BenchRuns
mod HostsRuns
mod QueueRuns
