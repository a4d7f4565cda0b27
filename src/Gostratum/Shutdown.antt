-- ===== src/Gostratum/Shutdown.antt =====
-- `Listen` of src/gostratum/stratum_listener.go with its two goroutines, from the start to the shutdown,
-- one instruction that others can see at a time.
pub mod Accounts
pub mod Ending
pub mod Waiting
use kaspa_stratum_bridge.Base.{ℕ, suc, ◌+◌, ◌-◌, ◌≡◌, Bool, true, false}

-- Where `Listen` stands: before the socket is opened, at `<-ctx.Done()`, before `server.Close()`, in
-- `workerGroup.Wait()`, and returned, with the error of the socket or with `context.Canceled`.
pub data Listening : Type 0 where
  opening : Listening
  serving : Listening
  stopping : Listening
  draining : Listening
  refused : Listening
  returned : Listening

-- A goroutine: not yet started, started and before its `workerGroup.Add(1)`, in its loop, or returned.
pub data Phase : Type 0 where
  absent : Phase
  spawned : Phase
  running : Phase
  finished : Phase

-- `StratumListener` as its goroutines see it: the flag `shuttingDown`, whether the context is cancelled
-- and the socket closed, the counter of `workerGroup`, `stats.Disconnects`; and the workers: all that
-- were accepted, those whose `Disconnect` was not called yet, and those for which it waits at the
-- channel, which has no buffer.
pub record Server : Type 0 where
  pub listening : Listening
  pub shutting_down : Bool
  pub cancelled : Bool
  pub closed : Bool
  pub disconnect_listener : Phase
  pub tcp_listener : Phase
  pub worker_group : ℕ
  pub accepted : ℕ
  pub live : ℕ
  pub sending : ℕ
  pub disconnects : ℕ

-- `NewListener`, and `Listen` after its first line.
unfoldable pub new_listener : Server
new_listener = record {
  listening = opening;
  shutting_down = false;
  cancelled = false;
  closed = false;
  disconnect_listener = absent;
  tcp_listener = absent;
  worker_group = 0;
  accepted = 0;
  live = 0;
  sending = 0;
  disconnects = 0;
}

pub data Step : Server → Server → Type 0 where
  -- The context is cancelled from outside.
  cancel : (s : Server) → s.cancelled ≡ false → Step s (record s { cancelled = true })
  -- `lc.Listen` fails, or the socket is open and the goroutines are started.
  refuse : (s : Server) → s.listening ≡ opening → Step s (record s { listening = refused })
  open_socket :
      (s : Server)
      → s.listening ≡ opening
      → Step s
          (record s { listening = serving; disconnect_listener = spawned; tcp_listener = spawned })
  -- The end of `Listen`.
  stop :
      (s : Server)
      → s.listening ≡ serving
      → s.cancelled ≡ true
      → Step s (record s { listening = stopping; shutting_down = true })
  close_socket :
      (s : Server)
      → s.listening ≡ stopping
      → Step s (record s { listening = draining; closed = true })
  drained :
      (s : Server)
      → s.listening ≡ draining
      → s.worker_group ≡ 0
      → Step s (record s { listening = returned })
  -- `disconnectListener`.
  add_disconnect_listener :
      (s : Server)
      → s.disconnect_listener ≡ spawned
      → Step s (record s { disconnect_listener = running; worker_group = s.worker_group + 1 })
  hear :
      (s : Server) (n : ℕ)
      → s.disconnect_listener ≡ running
      → s.sending ≡ suc n
      → Step s (record s { sending = n; disconnects = s.disconnects + 1 })
  end_disconnect_listener :
      (s : Server)
      → s.disconnect_listener ≡ running
      → s.cancelled ≡ true
      → Step s (record s { disconnect_listener = finished; worker_group = s.worker_group - 1 })
  -- `tcpListener`: `Accept` gives a connection as long as the socket is open, or fails.
  add_tcp_listener :
      (s : Server)
      → s.tcp_listener ≡ spawned
      → Step s (record s { tcp_listener = running; worker_group = s.worker_group + 1 })
  accept_connection :
      (s : Server)
      → s.tcp_listener ≡ running
      → s.closed ≡ false
      → Step s (record s { accepted = s.accepted + 1; live = s.live + 1 })
  accept_again : (s : Server) → s.tcp_listener ≡ running → s.shutting_down ≡ false → Step s s
  end_tcp_listener :
      (s : Server)
      → s.tcp_listener ≡ running
      → s.shutting_down ≡ true
      → Step s (record s { tcp_listener = finished; worker_group = s.worker_group - 1 })
  -- The first `Disconnect` of a worker comes to its channel.
  leave :
      (s : Server) (n : ℕ)
      → s.live ≡ suc n
      → Step s (record s { live = n; sending = s.sending + 1 })

pub data Reach (s : Server) : Server → Type 0 where
  here : Reach s s
  next : {t u : Server} → Reach s t → Step t u → Reach s u

-- A run of a number of steps.
pub data Run (s : Server) : ℕ → Server → Type 0 where
  done : Run s 0 s
  more : {n : ℕ} {t u : Server} → Run s n t → Step t u → Run s (suc n) u
