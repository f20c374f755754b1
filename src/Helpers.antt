-- ===== src/Helpers.antt =====
-- jetblack_fixengine/acceptor/helpers.py and types.py, initiator/helpers.py and types.py, and what
-- start_initiator_manager of managers/initiator_manager.py builds: the configurations, the engines that
-- are made of them, and one connection after another.
pub mod Config
pub mod Connections
pub mod Continues
pub mod Accepts
pub mod Reconnects
