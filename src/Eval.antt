-- ===== src/Eval.antt =====
-- The evaluation: src/kagura_agent/eval/.
pub mod Corpus
pub mod Gate
pub mod Arms
pub mod Envelope
