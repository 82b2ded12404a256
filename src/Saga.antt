-- ===== src/Saga.antt =====
-- services/orchestrator/saga_state_machine.py: the saga of one order.
pub mod State
pub mod Services
pub mod Session
pub mod Compensate
pub mod Confirm
pub mod Machine
pub mod Trail
pub mod Ends
pub mod Adapters
mod Run
pub mod Money
pub mod Confirmed
pub mod Unidentified
mod Tests
