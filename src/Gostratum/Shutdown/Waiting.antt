-- ===== src/Gostratum/Shutdown/Waiting.antt =====
-- Which goroutines `Listen` of src/gostratum/stratum_listener.go waits for, and what the workers that
-- leave later come to.
use kaspa_stratum_bridge.Base.{◌+◌, ◌≤◌, ◌≡◌, ◌≢◌, refl, ◌∙◌, arith, Bool, true, false}
use kaspa_stratum_bridge.Gostratum.Shutdown.{
  returned, Phase, absent, spawned, running, finished, Server, new_listener, Step, cancel, refuse,
  open_socket, stop, close_socket, drained, add_disconnect_listener, hear, end_disconnect_listener,
  add_tcp_listener, accept_connection, accept_again, end_tcp_listener, leave, Reach, here, next,
}
use kaspa_stratum_bridge.Gostratum.Shutdown.Accounts.{
  is_running, IsServer, Step-IsServer, reached-IsServer,
}

-- A goroutine that has come past its `workerGroup.Add(1)`.
abbrev pub has_added : Phase → Bool
has_added absent = false
has_added spawned = false
has_added running = true
has_added finished = true

record IsWaited (s : Server) : Type 0 where
  disconnect_listener_added : has_added s.disconnect_listener ≡ true
  tcp_listener_added : has_added s.tcp_listener ≡ true
  both_ended :
      s.listening ≡ returned → (s.disconnect_listener ≡ finished) × (s.tcp_listener ≡ finished)

ended : (p : Phase) → has_added p ≡ true → is_running p ≡ 0 → p ≡ finished
ended absent h k = cc
ended spawned h k = cc
ended running h k = absurd (omega arith)
ended finished h k = refl

Step-IsWaited : {s t : Server} → Step s t → IsServer s → IsWaited s → IsWaited t
Step-IsWaited (cancel s live) h w = ground (arith, w.both_ended)
Step-IsWaited (refuse s at) h w = ground arith
Step-IsWaited (open_socket s at) h w = absurd (ground (arith, h.not_started at))
Step-IsWaited (stop s at over) h w = ground arith
Step-IsWaited (close_socket s at) h w = ground arith
Step-IsWaited (drained s at none_left) h w = record {
  disconnect_listener_added = w.disconnect_listener_added;
  tcp_listener_added = w.tcp_listener_added;
  both_ended = λ over. (
    ended s.disconnect_listener w.disconnect_listener_added (omega (arith, h.group, none_left)),
    ended s.tcp_listener w.tcp_listener_added (omega (arith, h.group, none_left)),
  );
}
Step-IsWaited (add_disconnect_listener s at) h w = absurd (ground arith)
Step-IsWaited (hear s n at waiting) h w = ground (arith, w.both_ended)
Step-IsWaited (end_disconnect_listener s at over) h w = ground (arith, w.both_ended)
Step-IsWaited (add_tcp_listener s at) h w = absurd (ground arith)
Step-IsWaited (accept_connection s at open_yet) h w = ground (arith, w.both_ended)
Step-IsWaited (accept_again s at on) h w = w
Step-IsWaited (end_tcp_listener s at over) h w = ground (arith, w.both_ended)
Step-IsWaited (leave s n at) h w = ground (arith, w.both_ended)

Reach-IsWaited : {s t : Server} → Reach s t → IsServer s → IsWaited s → IsServer t × IsWaited t
Reach-IsWaited here h w = (h, w)
Reach-IsWaited (next reach step) h w =
    let (k, v) = Reach-IsWaited reach h w in (Step-IsServer step k, Step-IsWaited step k v)

-- If both goroutines have come past their `workerGroup.Add(1)` while `Listen` has not returned, then both
-- have ended whenever it has returned.
pub listen_waits :
    {s t : Server}
    → Reach new_listener s
    → has_added s.disconnect_listener ≡ true
    → has_added s.tcp_listener ≡ true
    → s.listening ≢ returned
    → Reach s t
    → t.listening ≡ returned
    → (t.disconnect_listener ≡ finished) × (t.tcp_listener ≡ finished)
listen_waits reach first second before later over =
    (Reach-IsWaited later (reached-IsServer reach) (record {
      disconnect_listener_added = first;
      tcp_listener_added = second;
      both_ended = λ at. absurd (before at);
    })).1.both_ended
      over

Step-unheard :
    {s t : Server}
    → Step s t
    → s.disconnect_listener ≡ finished
    → IsServer s
    → (t.disconnect_listener ≡ finished) × (t.disconnects ≡ s.disconnects) × (s.sending ≤ t.sending)
Step-unheard (cancel s live) e h = ground arith
Step-unheard (refuse s at) e h = ground arith
Step-unheard (open_socket s at) e h = absurd (ground (arith, h.not_started at))
Step-unheard (stop s at over) e h = ground arith
Step-unheard (close_socket s at) e h = ground arith
Step-unheard (drained s at none_left) e h = ground arith
Step-unheard (add_disconnect_listener s at) e h = absurd (ground arith)
Step-unheard (hear s n at waiting) e h = absurd (ground arith)
Step-unheard (end_disconnect_listener s at over) e h = ground arith
Step-unheard (add_tcp_listener s at) e h = ground arith
Step-unheard (accept_connection s at open_yet) e h = ground arith
Step-unheard (accept_again s at on) e h = ground arith
Step-unheard (end_tcp_listener s at over) e h = ground arith
Step-unheard (leave s n at) e h = ground arith

record IsDeaf (s t : Server) : Type 0 where
  server : IsServer t
  gone : t.disconnect_listener ≡ finished
  heard : t.disconnects ≡ s.disconnects
  waiting : s.sending ≤ t.sending

Reach-IsDeaf :
    {s t : Server} → Reach s t → s.disconnect_listener ≡ finished → IsServer s → IsDeaf s t
Reach-IsDeaf here e h = record { server = h; gone = e; heard = refl; waiting = omega arith }
Reach-IsDeaf (next reach step) e h =
    let d = Reach-IsDeaf reach e h in
    let u = Step-unheard step d.gone d.server in
    record {
      server = Step-IsServer step d.server;
      gone = u.0;
      heard = u.1 ∙ d.heard;
      waiting = omega (arith, u.2, d.waiting);
    }

-- Once `disconnectListener` has returned, no further disconnection is ever heard: every worker that was
-- accepted and not heard before stays connected or waits at the channel for ever.
pub shutdown_unheard :
    {s t : Server}
    → Reach new_listener s
    → s.disconnect_listener ≡ finished
    → Reach s t
    → (t.disconnects ≡ s.disconnects)
      × (s.sending ≤ t.sending)
      × (t.accepted ≡ t.live + t.sending + s.disconnects)
shutdown_unheard reach e later =
    let d = Reach-IsDeaf later e (reached-IsServer reach) in
    (d.heard, d.waiting, omega (arith, d.server.workers, d.heard))

-- A run in which `Listen` returns before its goroutines have come to their `workerGroup.Add(1)`.
abbrev returned_early : Server
returned_early = record {
  listening = returned;
  shutting_down = true;
  cancelled = true;
  closed = true;
  disconnect_listener = spawned;
  tcp_listener = running;
  worker_group = 1;
  accepted = 0;
  live = 0;
  sending = 0;
  disconnects = 0;
}

listen_may_return_early : Reach new_listener returned_early
unfolding new_listener
listen_may_return_early =
    next
      (next
        (next (next (next (next here (open_socket _ refl)) (cancel _ refl)) (stop _ refl refl))
          (close_socket _ refl))
        (drained _ refl refl))
      (add_tcp_listener _ refl)
