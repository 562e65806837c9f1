-- ===== src/Bindings.antt =====
-- The generated bindings: their objects, events, requests and enumerations.
pub mod Events
pub mod Objects
pub mod Decoders
pub mod Requests
pub mod Announce
pub mod Table
pub mod Release
pub mod Keeps
pub mod Taking
pub mod Classes
pub mod Careful
pub mod Enums
pub mod Arrivals
pub mod Departures
pub mod Protocol
