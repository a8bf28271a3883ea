-- ===== src/Coordinator/Network.antt =====
-- The coordinators of all participants, and the announcements that travel between them. The
-- commit of a host transfer is that of `transferHost` in src/runtime/session.ts: the host applies
-- the agreed clock to itself and broadcasts it, whatever its coordinator makes of it.
-- Announcements may be lost, repeated and reordered, and any peer may send anything; the
-- transport authenticates who sent it. The theorems are about orderly steps.
pub mod System
mod Invariant
pub mod Safety
