-- ===== src/Examples.antt =====
-- The theorems at concrete inputs, and tests of the definitions.
mod StunRuns
mod RelayRuns
mod LoopRuns
mod HostRuns
mod VarintRuns
mod LanRuns
mod SessionRuns
mod LobbyRuns
mod PortRuns
mod LogRuns
mod TaskRuns
