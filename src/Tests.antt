-- ===== src/Tests.antt =====
-- Tests, and the theorems at concrete inputs.
mod Updates
mod TableServer
mod TextCases
mod DatabaseCases
mod ServerCases
mod HandleCases
mod MigrateCases
mod ClientCases
mod ThreadCases
mod MainCases
mod LifeCases
mod SpecCases
mod LoopCases
mod SharedCases
mod GeneratorCases
