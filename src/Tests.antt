-- ===== src/Tests.antt =====
-- Runs of the modelled code on concrete data, and the theorems at these.
mod Numbers
mod PlainNumbers
mod Addresses
mod Tables
mod Logins
mod Reports
mod Conflicts
mod Sweeps
mod Histories
mod Requests
mod Dumps
