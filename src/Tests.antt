-- ===== src/Tests.antt =====
-- Test data, runs at fixed inputs, and the theorems at those inputs.
mod CrcTests
mod QueueTests
mod ProtocolTests
mod TextTests
mod RegistryTests
mod HandleTests
mod RouteTests
mod DeviceTests
mod NetworkTests
mod ConfigTests
mod ServerTests
mod AnswerTests
mod AnsweredTests
mod BootTests
mod GoneTests
mod WholeTests
mod ServedTests
mod WatchTests
mod RingTests
mod TextRequestTests
mod StartTests
mod PipelineTests
