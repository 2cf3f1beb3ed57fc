-- ===== src/Pxeboot.antt =====
-- crates/pxeboot/src/main.rs, the network boot manager: one module for each of its parts.
pub mod Boot
pub mod Lease
pub mod Dhcp
pub mod Tftp
pub mod Control
pub mod Start
pub mod Netboot
