-- ===== src/Lib.antt =====
-- Verification library of chef-bcpc: the programs in Python that it installs, as executable
-- definitions, with theorems about them.
--
-- Lightos.antt and the files under Lightos/ are about the volume driver of Cinder for LightOS,
-- chef/cookbooks/bcpc/files/default/cinder/lightos.py. Its parts, from the network up:
--   Command   `_generate_lightos_cmd`: the table of REST commands, the request of each
--   Session   the attributes of LightOSConnection and LightOSVolumeDriver, the options, and the
--             environment of the driver as the record `Env`
--   Client    `send_cmd` and `__send_cmd`: a command goes round the API servers until one answers
--   Lookup    `_get_lightos_volume`, `_get_lightos_snapshot`, the names, and `_wait_for_...`
--   Volume    create_volume, delete_volume, extend_volume and what they call
--   Snapshot  create_snapshot, delete_snapshot, create_cloned_volume
--   Acl       what `__add_volume_acl` and `__remove_volume_acl` do to the lists that they read; its
--             child Values has the same for what the cluster may send in the place of a list
--   Access    those two, update_volume_acl and `_wait_for_volume_acl`
--   Attach    initialize_connection, terminate_connection
--   Setup     do_setup, check_for_setup_error and the statistics
--   Driver    the operations that Cinder calls, as one type, with `perform`
-- Every operation is an action on the session (Run.antt): it ends in a result, in an exception or,
-- out of fuel, in `diverged`, and in a session, which an exception does not roll back. The session
-- also records each request that went out, with its answer; the program keeps no such record, and
-- no operation reads it. The children of each part hold its proofs: Pace for termination, Answers
-- for what a result says about the requests on record; Frame carries a relation between sessions
-- from the single step to every operation.
--
-- Brick.antt and the files under Brick/ are about the connector on the host of an instance,
-- chef/cookbooks/bcpc/files/default/cinder/lightos_connector.py. The operating system is the parameter
-- `Host`, and time is counted as in the driver:
--   Codes         `int` and the pattern of the devices that are skipped
--   Dsc           the files of the discovery client, and the properties of the host for the driver
--   Device        `_get_device_by_uuid`, which watches the clock, and `_get_size_by_uuid`
--   Volumes       connect_volume, disconnect_volume, extend_volume and the messages they put
--   Monitor       the database of the connections that lightos_monitor keeps from the messages
-- The uuid of a volume is a text; the lines of a file of the discovery client are made before the
-- file, which is moved to its place in one call.
--
-- Scheduler.antt and the files under Scheduler/ are about the filters of the schedulers:
--   AntiAffinity  chef/cookbooks/bcpc/files/default/nova/anti_affinity_availability_zone_filter.py;
--                 Nova's lookup of the zone of a host is a parameter
--   AccessFilter  chef/cookbooks/bcpc/files/default/cinder/access_filter.py; Cinder's volume types
--                 and the table of accesses to them are parameters
-- Inventory.antt is about the filters of Ansible, most of them in
-- ansible/playbooks/roles/common/filter_plugins/util.py:
--   Nvme          `optimal_nvme_lbaf`; the numbers of a format, which `nvme id-ns` prints, are
--                 natural numbers
--   Filters       the filters that read a host's variables, which are decoded YAML; its child Chef is
--                 `update_chef_node_host_vars`, its child Interfaces the filters on addresses, with
--                 `ipaddress.IPv4Interface` as a parameter
--   Licenses      ansible/playbooks/roles/headnode/filter_plugins/util.py and
--                 ansible/playbooks/roles/haproxy/filter_plugins/utils.py; the order in which Python
--                 lists a set is a parameter
-- Topology.antt is about virtual/bin/generate-ansible-inventory.py, which makes the inventory of a
-- virtual cloud from its topology and its SSH configuration. A node's variables are one dictionary
-- that the nodes and the inventory share: the inventory holds the positions of the nodes.
-- Databags.antt and the files under Databags/ are about virtual/bin/lib/bcc_chef_databags.py, which
-- makes the secrets of a new cloud: Codec is the form of a Ceph key, Bags the data bags and the file.
-- What reading a file gives, and that drawing leaves the files alone, are the hypotheses `IsFiling`.
-- What reading a file gives, and that drawing leaves the files alone, are the hypotheses `IsFiling`.
-- Randomness, the time, the files, YAML and the certificates of OpenSSL are the parameter `Source`.
--
-- ServerMetadata.antt is about the API extension for the system metadata of servers,
-- chef/cookbooks/bcpc/files/default/nova/server_system_metadata_api.py, and what it calls of
-- bcpc_compute_api.py beside it. Nova is the parameter `Nova`: its database, the lookup of an
-- instance, the policies, the decorators for locked and running instances, and `save`. A request's
-- body is a dictionary, as the JSON schemas that Nova checks before have it.
--
-- ServerProperties.antt is about the API extension for the properties of servers,
-- chef/cookbooks/bcpc/files/default/nova/server_properties_api.py, with its schema and
-- `update_instance_if_stopped` of bcpc_compute_api.py beside it, on a Nova of its own, with the
-- attributes of a server.
--
-- Prelude names what is used of the library; Json is the data of the REST interface, and Dynamic
-- what Python does with such data (a subscript, `get`, `for`, `in`), with its exceptions; Dict is a
-- dictionary whose values are of one type.
--
-- The loops of the driver watch a clock. `while_until` and `while_before` of Run/Loop.antt run on
-- fuel, one round for each tick that is left before the deadline and one to spare; a round that goes
-- on takes a tick at least where a request and a sleep take time (`IsTimed`), so the fuel is enough.
--
-- Not under the repository and so fields of `Env`: the network (`session.send`, a status and a parsed
-- body, or none where it raises), the clock, netutils.is_valid_ipv4 and is_valid_ipv6, and the order
-- in which Python lists a set. Timeouts and sleeps are whole seconds of `second` ticks. Not modelled:
-- logging, exception texts, the lock around `_create_snapshot`, the timeout of a single request, which
-- is a part of `send`, and the vendor properties.
pub mod Prelude
pub mod Json
pub mod Run
pub mod Dynamic
pub mod Lightos
pub mod Brick
pub mod Databags
pub mod Dict
pub mod Inventory
pub mod Scheduler
pub mod ServerMetadata
pub mod ServerProperties
pub mod Topology
