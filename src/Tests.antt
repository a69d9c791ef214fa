-- ===== src/Tests.antt =====
-- Runs of the definitions on concrete inputs, and each theorem with hypotheses at an input that meets
-- them. The inputs are those of the source's own tests where it has them.
mod Data
mod Balancer
mod Parts
mod Config
mod Lifecycle
mod Membership
mod Keyed
mod Sync
mod Identity
mod Manager
