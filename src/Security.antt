-- ===== src/Security.antt =====
-- src/security: the fence around the flight area and the signatures of the MAVLink links.
pub mod Geofence
pub mod Signer
