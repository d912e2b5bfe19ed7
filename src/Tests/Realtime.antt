-- ===== src/Tests/Realtime.antt =====
-- The sockets of two clients, one of which fails to take a message.
use tlrs.Prelude.{◌≡◌, refl, not, some, List, [], ◌∷◌, ◌==◌}
use tlrs.Realtime.{
  new_manager, connect, disconnect, receive, invalid_event, location_updated, ids_of,
  connection_count,
}
use tlrs.Realtime.Connected.{Operation, connected, disconnected, received, run}
use tlrs.Realtime.Numbered.{IsNumbered, run-IsNumbered}

-- Client 1 has the sockets 10 and 11, and client 2 the socket 12; the socket 10 fails.
abbrev operations : List Operation
operations =
    connected 1 10
    ∷ connected 1 11
    ∷ connected 2 12
    ∷ received (λ socket. not (socket == 10)) invalid_event
    ∷ received (λ socket. not (socket == 10)) (location_updated 1)
    ∷ disconnected 2 12
    ∷ []

run-IsNumbered_example : IsNumbered (run operations new_manager)
run-IsNumbered_example = run-IsNumbered operations

one_is_left : ids_of 1 (run operations new_manager) ≡ some 2 ∷ []
unfolding connect disconnect receive
one_is_left = refl

none_are_left : connection_count 2 (run operations new_manager) ≡ 0
unfolding connect disconnect receive
none_are_left = refl
