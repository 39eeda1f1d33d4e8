-- ===== src/Tests.antt =====
-- Sample states, runs of the code on them, and each theorem at an input that meets its hypotheses.
mod FourReplicas
mod AgreementTests
mod StartTests
mod Samples
mod PoolTests
mod CoreTests
mod CryptoTests
mod NetTests
mod WireTests
mod PaceTests
mod TurnTests
mod PruneTests
mod SecpTests
mod FetchTests
