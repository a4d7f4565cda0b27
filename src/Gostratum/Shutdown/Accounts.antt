-- ===== src/Gostratum/Shutdown/Accounts.antt =====
-- What holds at every moment of `Listen` of src/gostratum/stratum_listener.go and its goroutines.
use kaspa_stratum_bridge.Base.{ℕ, ◌+◌, ◌≡◌, refl, arith, Bool, true, false}
use kaspa_stratum_bridge.Gostratum.Shutdown.{
  Listening, opening, serving, stopping, draining, refused, returned, Phase, absent, running,
  Server, new_listener, Step, cancel, refuse, open_socket, stop, close_socket, drained,
  add_disconnect_listener, hear, end_disconnect_listener, add_tcp_listener, accept_connection,
  accept_again, end_tcp_listener, leave, Reach, here, next,
}

abbrev pub is_running : Phase → ℕ
is_running running = 1
is_running other = 0

abbrev pub has_stopped : Listening → Bool
has_stopped opening = false
has_stopped serving = false
has_stopped stopping = true
has_stopped draining = true
has_stopped refused = false
has_stopped returned = true

abbrev pub has_closed : Listening → Bool
has_closed opening = false
has_closed serving = false
has_closed stopping = false
has_closed draining = true
has_closed refused = false
has_closed returned = true

pub record IsServer (s : Server) : Type 0 where
  pub group : s.worker_group ≡ is_running s.disconnect_listener + is_running s.tcp_listener
  pub workers : s.accepted ≡ s.live + s.sending + s.disconnects
  pub stopped : s.shutting_down ≡ has_stopped s.listening
  pub shut : s.closed ≡ has_closed s.listening
  pub not_started :
      s.listening ≡ opening → (s.disconnect_listener ≡ absent) × (s.tcp_listener ≡ absent)
  pub stop_cancelled : has_stopped s.listening ≡ true → s.cancelled ≡ true

pub new_listener-IsServer : IsServer new_listener
unfolding new_listener
new_listener-IsServer = record {
  group = refl;
  workers = refl;
  stopped = refl;
  shut = refl;
  not_started = λ h. (refl, refl);
  stop_cancelled = λ h. cc;
}

pub Step-IsServer : {s t : Server} → Step s t → IsServer s → IsServer t
Step-IsServer (cancel s live) h = ground (arith, h.not_started)
Step-IsServer (refuse s at) h = ground (arith, h.not_started at)
Step-IsServer (open_socket s at) h = ground (arith, h.not_started at)
Step-IsServer (stop s at over) h = ground arith
Step-IsServer (close_socket s at) h = ground arith
Step-IsServer (drained s at none_left) h = ground arith
Step-IsServer (add_disconnect_listener s at) h = ground (arith, h.not_started)
Step-IsServer (hear s n at waiting) h = ground (arith, h.not_started)
Step-IsServer (end_disconnect_listener s at over) h = ground (arith, h.not_started)
Step-IsServer (add_tcp_listener s at) h = ground (arith, h.not_started)
Step-IsServer (accept_connection s at open_yet) h = ground (arith, h.not_started)
Step-IsServer (accept_again s at on) h = h
Step-IsServer (end_tcp_listener s at over) h = ground (arith, h.not_started)
Step-IsServer (leave s n at) h = ground (arith, h.not_started)

Reach-IsServer : {s t : Server} → Reach s t → IsServer s → IsServer t
Reach-IsServer here h = h
Reach-IsServer (next reach step) h = Step-IsServer step (Reach-IsServer reach h)

-- At every moment of `Listen` and its goroutines, the counter of the wait group is the number of the
-- goroutines that are in their loops, the connections that were accepted are those that have not
-- disconnected, those that wait to be heard and those that were heard, and from the moment that the flag
-- of the shutdown is set the context is cancelled.
pub reached-IsServer : {s : Server} → Reach new_listener s → IsServer s
reached-IsServer reach = Reach-IsServer reach new_listener-IsServer
