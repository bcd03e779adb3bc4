-- ===== src/Vsock.antt =====
-- The guest-exec transport: the frames of internal/vsockexec, the guest agent that mirrors them,
-- and the host session that talks to it.
pub mod Frame
pub mod Agent
pub mod Dial
pub mod Session
pub mod Serving
pub mod Served
pub mod Reply
pub mod Answered
pub mod RoundTrip
pub mod Outputs
pub mod Delivery
pub mod Cut
pub mod Ends
mod Tests
