-- ===== src/Tests.antt =====
-- Runs of the model at fixed inputs, and each theorem at an input that meets its hypotheses.
mod Answers
mod Brcode
mod Epoch
mod Evalkit
mod Fusion
mod Hql
mod KbAsk
mod Matched
mod Query
mod Rag
mod Runner
mod Similar
