-- ===== src/Tests.antt =====
-- Tests: concrete worlds, runs of the models, and the theorems at concrete inputs.
mod Sample
mod ManagerTests
mod DeviceTests
mod ResolverTests
mod JoinTests
mod RegisterTests
mod SocketTests
mod CachedTests
mod BrokerTests
mod SentTests
mod LeaveTests
mod GenIdTests
mod IdsTests
mod StoredTests
mod QueryTests
mod SocketJoinTests
mod SocketRequestTests
