-- ===== src/Bridge.antt =====
-- cmd/bridge: the frame identity that the bridge gives to the samples of a match, and its link to the server.
pub mod Epoch
pub mod Sequence
pub mod Registry
pub mod Sender
pub mod Dial
pub mod Deliver
pub mod Link
pub mod Moves
pub mod Account
pub mod Race
pub mod Attempts
