-- ===== src/Pubsub.antt =====
-- The package pubsub: the group agent of a node.
pub mod Node
pub mod Channels
pub mod Packer
pub mod Processor
pub mod Agent
pub mod Waiting
pub mod Requests
pub mod Join
pub mod Delivery
pub mod Departure
pub mod Admission
pub mod Joining
pub mod Greeting
pub mod Subscription
pub mod Examples
pub mod Scenarios
