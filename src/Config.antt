-- ===== src/Config.antt =====
-- src/config: the settings, their limits, their migration and their file.
pub mod Text
pub mod Limits
pub mod Hook
pub mod Reasoning
pub mod Llm
pub mod Hotkey
pub mod CustomApi
pub mod Translation
pub mod App
pub mod File
mod Tests
