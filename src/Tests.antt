-- ===== src/Tests.antt =====
-- Tests of the models, and each theorem that has hypotheses at an input that meets them.
mod AuthorityTests
mod RoutingTests
mod LedgerTests
mod HeartbeatTests
mod PolicyTests
mod LabPolicyTests
mod OrchestrationTests
mod PlanningTests
mod GoalTests
mod AccountTests
mod MeasurementTests
mod TransportTests
mod ReplayTests
mod FactTests
