-- ===== src/Tests.antt =====
-- Runs of the modelled code at concrete inputs, and the theorems at those inputs.
mod RouterTests
mod StreamTests
mod StreamRunTests
mod SettingsTests
mod ConfigTests
mod LoginTests
mod RawTests
mod MutationTests
mod PlanTests
mod ChatTests
mod LoadTests
mod RedactTests
mod CapableTests
mod BackupTests
