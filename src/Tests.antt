-- ===== src/Tests.antt =====
-- Concrete file systems, and every theorem at one of them.
mod Clouds
mod Data
mod Files
mod Migration
mod Operators
mod Quotas
mod Requests
mod Servers
