-- ===== src/Realtime.antt =====
-- src/realtime: the sockets of the clients (connection_manager.py), and the events that are sent to
-- them (locations_suscriber.py). A client and a socket are numbers, a dictionary is a function, and
-- a set is a list without duplicates. Whether a socket takes a message is an argument.
pub mod Connected
pub mod Numbered
use tlrs.Prelude.{
  ℕ, ◌+◌, Bool, true, false, ◌&&◌, ◌||◌, not, Option, none, some, List, [], ◌∷◌, ◌++◌, map, length,
  select, ◌==◌, if◌then◌else◌,
}

-- `ConnectionManager`
pub record ConnectionManager : Type 0 where
  pub connections : ℕ → Option (List ℕ)
  pub connection_ids : ℕ → Option ℕ
  pub next_connection_number : ℕ

-- `__init__`
abbrev pub new_manager : ConnectionManager
new_manager = record {
  connections = λ _. none;
  connection_ids = λ _. none;
  next_connection_number = 1;
}

-- `d[key] = value`, or `d.pop(key, None)` for `none`
abbrev pub put {ℓ} : {A : Type ℓ} → ℕ → Option A → (ℕ → Option A) → ℕ → Option A
put key value d k = if k == key then value else d k

-- `d.get(key, set())`
abbrev pub sockets_of : Option (List ℕ) → List ℕ
sockets_of none = []
sockets_of (some sockets) = sockets

abbrev pub has : ℕ → List ℕ → Bool
has x [] = false
has x (y ∷ ys) = (x == y) || has x ys

-- `set.add`
abbrev pub add : ℕ → List ℕ → List ℕ
add x xs = if has x xs then xs else xs ++ (x ∷ [])

-- `set.discard`
abbrev pub discard : ℕ → List ℕ → List ℕ
discard x xs = select (λ y. not (y == x)) xs

-- `if connection_id is None: …`
abbrev pub number : ℕ → Option ℕ → ConnectionManager → ℕ × ConnectionManager
number websocket (some id) m = (id, m)
number websocket none m = (
  m.next_connection_number,
  record m {
    connection_ids = put websocket (some m.next_connection_number) m.connection_ids;
    next_connection_number = m.next_connection_number + 1;
  },
)

-- `connect`: the number of the connection, and the manager
unfoldable pub connect : ℕ → ℕ → ConnectionManager → ℕ × ConnectionManager
connect client_id websocket m =
    let client_connections = add websocket (sockets_of (m.connections client_id)) in
    number websocket (m.connection_ids websocket)
      (record m { connections = put client_id (some client_connections) m.connections })

-- A set that is empty is taken out.
abbrev pub kept : List ℕ → Option (List ℕ)
kept [] = none
kept (x ∷ xs) = some (x ∷ xs)

-- `disconnect`, on the set of the client
abbrev pub remove_from : ℕ → ℕ → Option (List ℕ) → (ℕ → Option (List ℕ)) → ℕ → Option (List ℕ)
remove_from client_id websocket none connections = connections
remove_from client_id websocket (some sockets) connections =
    put client_id (kept (discard websocket sockets)) connections

-- `disconnect`
unfoldable pub disconnect : ℕ → ℕ → ConnectionManager → ConnectionManager
disconnect client_id websocket m = record m {
  connections = remove_from client_id websocket (m.connections client_id) m.connections;
  connection_ids = put websocket none m.connection_ids;
}

-- The loop over `disconnected_connections`
unfoldable pub disconnect_all : ℕ → List ℕ → ConnectionManager → ConnectionManager
unfolding disconnect
disconnect_all client_id [] m = m
disconnect_all client_id (websocket ∷ sockets) m =
    disconnect_all client_id sockets (disconnect client_id websocket m)

-- `send_to_client`: the sockets that a message is sent to, and the manager without those whose
-- sending failed
unfoldable pub send_to_client : (ℕ → Bool) → ℕ → ConnectionManager → List ℕ × ConnectionManager
unfolding disconnect_all
send_to_client sends client_id m =
    let client_connections = sockets_of (m.connections client_id) in
    (
      select sends client_connections,
      disconnect_all client_id (select (λ w. not (sends w)) client_connections) m,
    )

-- `connection_count`
abbrev pub connection_count : ℕ → ConnectionManager → ℕ
connection_count client_id m = length (sockets_of (m.connections client_id))

-- `connection_ids`; `none` is "unknown"
abbrev pub ids_of : ℕ → ConnectionManager → List (Option ℕ)
ids_of client_id m = map m.connection_ids (sockets_of (m.connections client_id))

-- A message of the channel: one of another type, one that is not an event, or an event for a client
pub data Message : Type 0 where
  other_type invalid_event : Message
  location_updated : (client_id : ℕ) → Message

-- The body of `async for message in pubsub.listen()`
unfoldable pub receive : (ℕ → Bool) → Message → ConnectionManager → ConnectionManager
unfolding send_to_client
receive sends other_type m = m
receive sends invalid_event m = m
receive sends (location_updated client_id) m = (send_to_client sends client_id m).1
