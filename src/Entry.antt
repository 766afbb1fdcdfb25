-- ===== src/Entry.antt =====
-- entry_options.py and entry_reload.py: the data and the options of a config entry.
pub mod Options
pub mod Reload
