-- ===== src/Tests.antt =====
-- The theorems at work on concrete states of the program, one module for each part.
mod Worlds
pub mod FirmwareRuns
pub mod AuthRuns
pub mod OutboxRuns
pub mod AccountRuns
pub mod ProvisioningRuns
pub mod TriggerEventRuns
pub mod PeripheralRuns
mod ReadingRuns
mod TokenRuns
mod DeviceRuns
mod BrokerRuns
mod AlertRuns
mod HistoryRuns
pub mod TriggerRuns
pub mod RunnerRuns
pub mod GithubRuns
mod RefusedRuns
