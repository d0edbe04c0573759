-- ===== src/Scoring.antt =====
-- src/utils/confidence_utils.py: several independent runs of a model score an answer, and their agreement
-- becomes a confidence.
pub mod Calls
pub mod Judgment
pub mod Multi
pub mod Reference
mod Tests
