-- ===== src/Correlation.antt =====
-- app/services/correlation_engine.py and app/schemas/detection_rule.py: detection in real time over
-- sliding windows.
pub mod Rule
pub mod Window
pub mod Engine
