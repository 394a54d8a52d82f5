-- ===== src/Detection.antt =====
-- app/services/detection_core.py: the evaluation of a rule's source, match and fields.
pub mod Fields
pub mod Fallback
pub mod Source
pub mod Clause
