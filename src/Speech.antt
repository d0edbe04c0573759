-- ===== src/Speech.antt =====
-- src/utils/speech_client.py: the transcript that the recognized segments make, its marks for other
-- languages, and how far two transcripts are apart.
pub mod Tags
pub mod Transcription
pub mod WordErrors
mod Tests
