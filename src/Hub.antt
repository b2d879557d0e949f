-- ===== src/Hub.antt =====
-- internal/hub: the connections, the viewer links and the message handlers.
pub mod Types
pub mod Links
pub mod World
pub mod Roster
pub mod Lifecycle
pub mod Transfer
pub mod Transport
pub mod Connect
pub mod Relay
pub mod Viewing
pub mod Security
pub mod Grants
pub mod SignIn
pub mod Accounts
pub mod Settings
pub mod Legacy
pub mod Sfu
pub mod Audit
pub mod Dispatch
pub mod Loops
pub mod Ingest
