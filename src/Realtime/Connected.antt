-- ===== src/Realtime/Connected.antt =====
-- The manager as a relation of clients and sockets.
use tlrs.Prelude.{ℕ, Bool, ◌&&◌, ◌||◌, not, List, [], ◌∷◌, ◌==◌}
use tlrs.Realtime.{
  ConnectionManager, sockets_of, has, connect, disconnect, Message, location_updated, receive,
}

-- Whether a message for the client goes to the socket
abbrev pub is_connected : ConnectionManager → ℕ → ℕ → Bool
is_connected m client socket = has socket (sockets_of (m.connections client))

-- What happens to the manager. While a socket takes a message, other tasks may run: a sending that
-- is interrupted is a sequence of the disconnections that it ends with.
pub data Operation : Type 0 where
  connected disconnected : (client socket : ℕ) → Operation
  received : (sends : ℕ → Bool) → Message → Operation

abbrev pub step : Operation → ConnectionManager → ConnectionManager
step (connected client socket) m = (connect client socket m).1
step (disconnected client socket) m = disconnect client socket m
step (received sends message) m = receive sends message m

abbrev pub run : List Operation → ConnectionManager → ConnectionManager
run [] m = m
run (o ∷ operations) m = run operations (step o m)

-- The specification: which sockets a client has.
abbrev Relation : Type 0
Relation = ℕ → ℕ → Bool

abbrev relate : Operation → Relation → Relation
relate (connected c w) r client socket = r client socket || ((client == c) && (socket == w))
relate (disconnected c w) r client socket = r client socket && not ((client == c) && (socket == w))
relate (received sends (location_updated c)) r client socket =
    r client socket && (not (client == c) || sends socket)
relate (received sends _) r client socket = r client socket

abbrev pub relate_all : List Operation → Relation → Relation
relate_all [] r = r
relate_all (o ∷ operations) r = relate_all operations (relate o r)
