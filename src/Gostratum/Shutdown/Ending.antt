-- ===== src/Gostratum/Shutdown/Ending.antt =====
-- The end of `Listen` of src/gostratum/stratum_listener.go: it comes, and what it waits for.
use kaspa_stratum_bridge.Base.{ℕ, ◌+◌, ◌*◌, ◌≤◌, ◌≡◌, refl, sym, ◌∙◌, arith, true, ◌⊎◌, inl, inr}
use kaspa_stratum_bridge.Gostratum.Shutdown.{
  Listening, opening, serving, stopping, draining, refused, returned, Phase, absent, spawned,
  running, finished, Server, new_listener, Step, cancel, refuse, open_socket, stop, close_socket,
  drained, add_disconnect_listener, hear, end_disconnect_listener, add_tcp_listener,
  accept_connection, accept_again, end_tcp_listener, leave, Reach, Run, done, more,
}
use kaspa_stratum_bridge.Gostratum.Shutdown.Accounts.{
  is_running, has_stopped, has_closed, IsServer, Step-IsServer, reached-IsServer,
}

-- The steps that a goroutine may still make.
abbrev steps_of : Phase → ℕ
steps_of absent = 0
steps_of spawned = 2
steps_of running = 1
steps_of finished = 0

abbrev steps_left : Listening → ℕ
steps_left draining = 1
steps_left other = 0

-- The steps that may still be made after the socket was closed.
unfoldable pub effort : Server → ℕ
effort s =
    steps_left s.listening
    + steps_of s.disconnect_listener
    + steps_of s.tcp_listener
    + 2 * s.live
    + s.sending

Step-closed : {s t : Server} → Step s t → s.closed ≡ true → t.closed ≡ true
Step-closed (cancel s live) h = h
Step-closed (refuse s at) h = h
Step-closed (open_socket s at) h = h
Step-closed (stop s at over) h = h
Step-closed (close_socket s at) h = refl
Step-closed (drained s at none_left) h = h
Step-closed (add_disconnect_listener s at) h = h
Step-closed (hear s n at waiting) h = h
Step-closed (end_disconnect_listener s at over) h = h
Step-closed (add_tcp_listener s at) h = h
Step-closed (accept_connection s at open_yet) h = h
Step-closed (accept_again s at on) h = h
Step-closed (end_tcp_listener s at over) h = h
Step-closed (leave s n at) h = h

effort-step : {s t : Server} → Step s t → IsServer s → s.closed ≡ true → effort t + 1 ≤ effort s
unfolding effort
effort-step (cancel s live) h closed = ground (arith, h.stop_cancelled)
effort-step (refuse s at) h closed = ground arith
effort-step (open_socket s at) h closed = ground arith
effort-step (stop s at over) h closed = ground arith
effort-step (close_socket s at) h closed = ground arith
effort-step (drained s at none_left) h closed = ground arith
effort-step (add_disconnect_listener s at) h closed = ground arith
effort-step (hear s n at waiting) h closed = ground arith
effort-step (end_disconnect_listener s at over) h closed = ground arith
effort-step (add_tcp_listener s at) h closed = ground arith
effort-step (accept_connection s at open_yet) h closed = cc
effort-step (accept_again s at on) h closed = ground arith
effort-step (end_tcp_listener s at over) h closed = ground arith
effort-step (leave s n at) h closed = ground arith

Phase-cases : (p : Phase) → (p ≡ running) ⊎ (is_running p ≡ 0)
Phase-cases absent = inr refl
Phase-cases spawned = inr refl
Phase-cases running = inl refl
Phase-cases finished = inr refl

closed-cases : (l : Listening) → has_closed l ≡ true → (l ≡ draining) ⊎ (l ≡ returned)
closed-cases opening h = cc
closed-cases serving h = cc
closed-cases stopping h = cc
closed-cases draining h = inl refl
closed-cases refused h = cc
closed-cases returned h = inr refl

-- While `Listen` waits for its goroutines, one of the three can go on.
waits : (s : Server) → IsServer s → s.listening ≡ draining → (t : Server) × Step s t
waits s h at =
    let stopped : has_stopped s.listening ≡ true = rw at refl in
    elim (Phase-cases s.disconnect_listener) [
      | inl serves ↦ (_, end_disconnect_listener s serves (h.stop_cancelled stopped))
      | inr silent ↦ elim (Phase-cases s.tcp_listener) [
        | inl accepts ↦ (_, end_tcp_listener s accepts (h.stopped ∙ stopped))
        | inr deaf ↦ (_, drained s at (omega (arith, h.group, silent, deaf)))
      ]
    ]

-- No step can be made.
abbrev pub IsStuck : Server → Type 0
IsStuck s = (t : Server) → ¬ (Step s t)

stuck_returned : (s : Server) → IsServer s → s.closed ≡ true → IsStuck s → s.listening ≡ returned
stuck_returned s h closed stuck = elim (closed-cases s.listening (sym h.shut ∙ closed)) [
  | inl at ↦ let (t, step) = waits s h at in absurd (stuck t step)
  | inr at ↦ at
]

record Later (s t : Server) (n : ℕ) : Type 0 where
  server : IsServer t
  closed : t.closed ≡ true
  spent : effort t + n ≤ effort s

Run-Later : {s t : Server} {n : ℕ} → Run s n t → IsServer s → s.closed ≡ true → Later s t n
Run-Later done h closed = record { server = h; closed = closed; spent = omega arith }
Run-Later (more run step) h closed =
    let l = Run-Later run h closed in
    record {
      server = Step-IsServer step l.server;
      closed = Step-closed step l.closed;
      spent = omega (arith, l.spent, effort-step step l.server l.closed);
    }

-- After `Listen` has closed its socket, its goroutines and the workers' disconnections make at most as
-- many steps as `effort` says, in whatever order they run, and where none of them can go on, `Listen` has
-- returned.
pub listen_returns :
    {s t : Server} {n : ℕ}
    → Reach new_listener s
    → s.closed ≡ true
    → Run s n t
    → (n ≤ effort s) × (IsStuck t → t.listening ≡ returned)
listen_returns {t} reach closed run =
    let l = Run-Later run (reached-IsServer reach) closed in
    (omega (arith, l.spent), stuck_returned t l.server l.closed)
