-- ===== src/Nft.antt =====
-- The objects of the nftables library, the library calls as parameters, and the state of a render
-- (pkg/server/netfilterrules.go, type nftState).
mod Objects
mod Calls
mod State
pub mod Fake
pub use Objects.*
pub use Calls.*
pub use State.*
