-- ===== src/Inventory.antt =====
-- The inventory filters of Ansible (ansible/playbooks/roles/*/filter_plugins).
pub mod Nvme
pub mod Filters
pub mod Licenses
mod Tests
