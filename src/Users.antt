-- ===== src/Users.antt =====
-- What belongs to a user: devices, linked accounts and profiles.
pub mod Devices
pub mod OauthAccounts
pub mod Profiles
