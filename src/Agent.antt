-- ===== src/Agent.antt =====
-- crates/revoot-core/src/agent.rs: budgets, invocation and life cycle of one review.
pub mod Limits
pub mod Budget
pub mod Invocation
pub mod Outcome
pub mod Run
pub mod Turn
pub mod Steps
mod Samples
mod Tests
mod TurnTests
