-- ===== src/Config/Reasoning.antt =====
-- src/translation/llm/mod.rs: how hard a model is asked to reason.
pub data ReasoningEffort : Type 0 where
  none minimal low medium high xhigh max : ReasoningEffort
