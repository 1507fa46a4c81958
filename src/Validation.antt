-- ===== src/Validation.antt =====
-- internal/validation: the experiments and the evidence that governance reads, and the policies.
pub mod Policy
pub mod Experiment
