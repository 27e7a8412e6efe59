-- ===== src/Updater.antt =====
-- client/updater: the choice of an update from the signed list of installers.
pub mod Versions
pub mod Signify
