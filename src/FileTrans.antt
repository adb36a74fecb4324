-- ===== src/FileTrans.antt =====
-- src/file_trans: the translation of whole files, line by line.
pub mod Partition
pub mod Window
pub mod Lines
pub mod Count
