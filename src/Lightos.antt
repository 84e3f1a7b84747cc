-- ===== src/Lightos.antt =====
-- The LightOS volume driver of Cinder, chef/cookbooks/bcpc/files/default/cinder/lightos.py.
pub mod Command
pub mod Session
pub mod Client
pub mod Lookup
pub mod Volume
pub mod Snapshot
pub mod Acl
pub mod Access
pub mod Attach
pub mod Setup
pub mod Driver
pub mod Frame
mod Tests
