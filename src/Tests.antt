-- ===== src/Tests.antt =====
-- Concrete runs of the components, and the theorems at concrete inputs.
mod Access
mod Keys
mod Tokens
mod Policies
mod Traffic
mod Gates
mod Wide
mod Signing
mod Keysets
mod Passcodes
mod Strengths
mod Hashes
mod Audits
mod Trails
