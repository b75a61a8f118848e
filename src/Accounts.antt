-- ===== src/Accounts.antt =====
-- Accounts: the instances and their owners (internal/service/instance, internal/service/user and
-- their SQLite repositories), and who a request comes from.
pub mod InstanceRepo
pub mod Instances
pub mod Users
pub mod Auth
pub mod Login
