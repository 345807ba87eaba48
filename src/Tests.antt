-- ===== src/Tests.antt =====
-- Runs of the model, and the theorems at concrete inputs.
mod Flows
mod Encoding
mod Netlink
mod Dumps
mod Vports
mod Messages
mod Datapaths
mod Packets
mod Families
mod Listings
mod Tools
mod Systems
mod Slices
mod Printing
mod Lookups
