-- ===== src/Examples.antt =====
-- Runs of the model on concrete inputs.
pub mod Sample
pub mod Messages
pub mod Handlers
pub mod States
pub mod Trees
pub mod Channels
pub mod Connections
pub mod Lists
pub mod Handshakes
pub mod ChannelLists
