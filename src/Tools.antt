-- ===== src/Tools.antt =====
-- What holds of the tools of all building blocks: pkg/state, pkg/lock, pkg/pubsub, pkg/secrets,
-- pkg/crypto, pkg/invoke and pkg/actors.
pub mod OneCall
pub mod Context
