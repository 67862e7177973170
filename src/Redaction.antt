-- ===== src/Redaction.antt =====
-- app/brain/security/redaction.py: the texts, references and metadata that leave the runtime with
-- their secrets masked. What `re`, `urllib.parse` and the Unicode tables answer is an `Engine`.
pub mod Engine
pub mod Text
pub mod Secrets
pub mod Uri
pub mod Coverage
pub mod Redactor
