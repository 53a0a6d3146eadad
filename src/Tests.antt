-- ===== src/Tests.antt =====
-- Runs of the definitions on small inputs, and each theorem at one of them.
mod Runs
mod LexerExamples
mod ParserExamples
mod EmitterExamples
mod SemaExamples
mod OutputExamples
mod GrammarExamples
mod DriverExamples
mod MiniCcExamples
