-- ===== src/Tests.antt =====
-- Concrete instances of the interfaces, and the theorems at concrete inputs.
mod MemoryDb
mod ToySsl
mod LawfulSsl
mod ToyJson
mod Mesh
mod Ledger
mod Pipeline
mod Overlap
mod Api
mod Delivery
mod Payments
mod Program
mod Serving
mod Arrival
mod Threads
mod Interop
