-- ===== src/Tests.antt =====
-- Runs of the code on small inputs, and the instances of the theorems.
mod Message
mod Reader
mod Event
mod Batch
mod Connect
mod Delivery
mod Format
mod Session
mod Utils
