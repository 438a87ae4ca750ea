-- ===== src/Tests.antt =====
-- Runs of the model and applications of its theorems at concrete inputs.
mod Limits
mod Codes
mod Devices
mod Admission
mod Stored
mod SettingForms
mod Listening
mod Codec
mod Access
mod Events
