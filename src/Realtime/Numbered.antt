-- ===== src/Realtime/Numbered.antt =====
-- The numbers of the connections in the log.
use tlrs.Prelude.{
  ℕ, ◌+◌, ◌≡◌, ◌⊎◌, ◌<◌, refl, sym, ◌∙◌, Bool, true, false, not, Option, none, some, List, [], ◌∷◌,
  select, ◌==◌, arith, Bool-cases, inl, inr, ==_iff,
}
use tlrs.Realtime.{
  ConnectionManager, new_manager, put, sockets_of, number, connect, disconnect, disconnect_all,
  send_to_client, Message, other_type, invalid_event, location_updated, receive,
}
use tlrs.Realtime.Connected.{Operation, connected, disconnected, received, step, run}

-- The numbers that are given are below the next one, and no two sockets share one.
pub record IsNumbered (m : ConnectionManager) : Type 0 where
  pub below : (w n : ℕ) → m.connection_ids w ≡ some n → n < m.next_connection_number
  pub distinct : (v w n : ℕ) → m.connection_ids v ≡ some n → m.connection_ids w ≡ some n → v ≡ w

put_same : (key k : ℕ) (o : Option ℕ) (d : ℕ → Option ℕ) → k == key ≡ true → put key o d k ≡ o
put_same key k o d e = rw e refl

put_other : (key k : ℕ) (o : Option ℕ) (d : ℕ → Option ℕ) → k == key ≡ false → put key o d k ≡ d k
put_other key k o d e = rw e refl

put_cases :
    (key k n : ℕ) (o : Option ℕ) (d : ℕ → Option ℕ)
    → put key o d k ≡ some n
    → ((k ≡ key) × (o ≡ some n)) ⊎ (d k ≡ some n)
put_cases key k n o d e = elim (Bool-cases (k == key)) [
  | inl f ↦ inl ((==_iff k key).0 f, sym (put_same key k o d f) ∙ e)
  | inr f ↦ inr (sym (put_other key k o d f) ∙ e)
]

-- A number that is new goes to one more socket.
module _ (socket next : ℕ) (ids : ℕ → Option ℕ) (below : (w n : ℕ) → ids w ≡ some n → n < next)
    (distinct : (v w n : ℕ) → ids v ≡ some n → ids w ≡ some n → v ≡ w) where
  below_next : (w n : ℕ) → put socket (some next) ids w ≡ some n → n < next + 1
  below_next w n e = elim (put_cases socket w n (some next) ids e) [
    | inl (_, q) ↦ ground (arith, q)
    | inr q ↦ omega (arith, below w n q)
  ]

  distinct_next :
      (v w n : ℕ)
      → put socket (some next) ids v ≡ some n
      → put socket (some next) ids w ≡ some n
      → v ≡ w
  distinct_next v w n e e' = elim (put_cases socket v n (some next) ids e) [
    | inl (f, q) ↦ elim (put_cases socket w n (some next) ids e') [
      | inl (g, _) ↦ f ∙ sym g
      | inr r ↦ let low = below w n r in ground (arith, q, low)
    ]
    | inr q ↦ elim (put_cases socket w n (some next) ids e') [
      | inl (_, r) ↦ let low = below v n q in ground (arith, r, low)
      | inr r ↦ distinct v w n q r
    ]
  ]

number-IsNumbered :
    (socket : ℕ) (id : Option ℕ) (m : ConnectionManager)
    → IsNumbered m
    → IsNumbered (number socket id m).1
number-IsNumbered socket (some id) m h = h
number-IsNumbered socket none m h = record {
  below = below_next socket m.next_connection_number m.connection_ids h.below h.distinct;
  distinct = distinct_next socket m.next_connection_number m.connection_ids h.below h.distinct;
}

popped : (key k n : ℕ) (d : ℕ → Option ℕ) → put key none d k ≡ some n → d k ≡ some n
popped key k n d e = elim (put_cases key k n none d e) [
  | inl (_, q) ↦ ground (arith, q)
  | inr q ↦ q
]

connect-IsNumbered : (c w : ℕ) (m : ConnectionManager) → IsNumbered m → IsNumbered (connect c w m).1
unfolding connect
connect-IsNumbered c w m h =
    number-IsNumbered w (m.connection_ids w) _ (record { below = h.below; distinct = h.distinct })

disconnect-IsNumbered :
    (c w : ℕ) (m : ConnectionManager) → IsNumbered m → IsNumbered (disconnect c w m)
unfolding disconnect
disconnect-IsNumbered c w m h = record {
  below = λ v n e. h.below v n (popped w v n m.connection_ids e);
  distinct = λ u v n e e'.
      h.distinct u v n (popped w u n m.connection_ids e) (popped w v n m.connection_ids e');
}

disconnect_all-IsNumbered :
    (c : ℕ) (sockets : List ℕ) (m : ConnectionManager)
    → IsNumbered m
    → IsNumbered (disconnect_all c sockets m)
unfolding disconnect_all
disconnect_all-IsNumbered c [] m h = h
disconnect_all-IsNumbered c (w ∷ sockets) m h =
    disconnect_all-IsNumbered c sockets (disconnect c w m) (disconnect-IsNumbered c w m h)

receive-IsNumbered :
    (sends : ℕ → Bool) (message : Message) (m : ConnectionManager)
    → IsNumbered m
    → IsNumbered (receive sends message m)
unfolding receive send_to_client
receive-IsNumbered sends other_type m h = h
receive-IsNumbered sends invalid_event m h = h
receive-IsNumbered sends (location_updated c) m h =
    disconnect_all-IsNumbered c (select (λ w. not (sends w)) (sockets_of (m.connections c))) m h

step-IsNumbered : (o : Operation) (m : ConnectionManager) → IsNumbered m → IsNumbered (step o m)
step-IsNumbered (connected c w) m h = connect-IsNumbered c w m h
step-IsNumbered (disconnected c w) m h = disconnect-IsNumbered c w m h
step-IsNumbered (received sends message) m h = receive-IsNumbered sends message m h

run_from-IsNumbered :
    (operations : List Operation) (m : ConnectionManager)
    → IsNumbered m
    → IsNumbered (run operations m)
run_from-IsNumbered [] m h = h
run_from-IsNumbered (o ∷ operations) m h =
    run_from-IsNumbered operations (step o m) (step-IsNumbered o m h)

-- In every run of a new manager, two sockets that have a number have different ones, and every
-- number is below the next one that is given.
pub run-IsNumbered : (operations : List Operation) → IsNumbered (run operations new_manager)
run-IsNumbered operations =
    run_from-IsNumbered operations new_manager
      (record { below = λ w n e. ground (arith, e); distinct = λ v w n e e'. ground (arith, e) })
