-- ===== src/Tests.antt =====
-- Concrete runs of the program, and the theorems at concrete inputs.
pub mod Deploying
pub mod Examples
pub mod FlatCodec
pub mod FlatWire
pub mod SessionCodec
pub mod Laptops
pub mod Registries
pub mod Bastion
pub mod Laptop
pub mod Tunnels
pub mod Threads
pub mod Down
pub mod Roles
