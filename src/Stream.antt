-- ===== src/Stream.antt =====
-- server/stream: the live updates of a race. Stream/Message is the wire format, Stream/Live is one live
-- round with its subscribers, Stream/Ingest is the loop over the connection of a simulation, and
-- Stream/Hub is the table of live rounds. Stream/Socket is a WebSocket client, and Stream/ActiveList the
-- list of live rounds as JSON. The listener's sockets are left out.
pub mod Message
pub mod Live
pub mod Ingest
pub mod Hub
pub mod ActiveList
pub mod Socket
