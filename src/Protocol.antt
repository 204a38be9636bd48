-- ===== src/Protocol.antt =====
-- library/src/protocol.c, library/include/protocol.h and library/include/protocol_defs.h: the
-- frames on the wire. `Defs` has the constants, `Build` makes command frames, `Commands` holds
-- the builder of each command, and `Parse` reads responses.
pub mod Defs
pub mod Build
pub mod Commands
pub mod Parse
