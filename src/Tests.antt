-- ===== src/Tests.antt =====
-- Tests of the definitions at concrete inputs, and an instance of each theorem that has hypotheses.
mod TimeframeTests
mod ResamplerTests
mod ExecutionTests
mod SizingTests
mod SignalFactoryTests
mod GateTests
mod RepairTests
mod Fixtures
mod BacktestTests
mod SettingsTests
mod DeliveryTests
mod CostsTests
mod HistoryTests
