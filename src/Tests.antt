-- ===== src/Tests.antt =====
-- The theorems applied to concrete inputs.
mod Data
mod Replies
mod Hivectl
mod Proto
mod Hivebus
mod Pxeboot
mod Daemons
mod Starting
mod Sockets
