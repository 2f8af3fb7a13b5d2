-- ===== src/Telegram.antt =====
-- The bot: the link between a user and a Telegram account of
-- src/mintflow/application/telegram/linking.py and link_use_cases.py and
-- src/mintflow/infrastructure/persistence/telegram_links.py, and what the bot waits for.
pub mod Conversation
pub mod Flow
pub mod Links
pub mod Parsing
