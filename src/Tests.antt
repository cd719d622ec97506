-- ===== src/Tests.antt =====
-- Runs on concrete data, and the theorems at concrete inputs.
mod Data
mod Domain
mod Tables
mod Delivery
mod Payments
mod Works
mod Links
mod Requests
mod Alerts
mod Uptimes
