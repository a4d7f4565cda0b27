-- ===== src/Bridge/Leaving.antt =====
-- The end of a client's loop in the bridge (src/gostratum/stratum_client.go).
use kaspa_stratum_bridge.Base.{ℕ, ◌≡◌, refl, ap, ◌∙◌, ==_iff, Bool, true, List, some}
use kaspa_stratum_bridge.Gostratum.Worker.{Env, disconnect}
use kaspa_stratum_bridge.Gostratum.Worker.Lifetime.{disconnect-disconnecting}
use kaspa_stratum_bridge.Gostratum.Listener.{LoopError, Read, client_loop}
use kaspa_stratum_bridge.Gostratum.Listener.Rounds.{client_loop-disconnect}
use kaspa_stratum_bridge.Bridge.{Setting, State, set_at, close, calls}

set_at-same : {A : Type 0} (p : ℕ) (x : A) (f : ℕ → A) → set_at p x f p ≡ x
unfolding set_at
set_at-same p x f = rw ((==_iff p p).1 refl) refl

module _ (setting : Setting) (env : Env) (p : ℕ) where
  abbrev IsLeaving : State setting → Type 0
  IsLeaving s = (s.contexts p).disconnecting ≡ true

  close-IsLeaving : (s : State setting) → IsLeaving (close setting env s p)
  unfolding close
  close-IsLeaving s =
      ap (λ c. c.disconnecting) (set_at-same p (disconnect env (s.contexts p)) s.contexts)
      ∙ disconnect-disconnecting env (s.contexts p)

  -- Whenever the loop that reads a client of the bridge returns, whatever it read, the client's worker
  -- is disconnecting.
  pub client_loop-disconnecting :
      (s : State setting) (rounds : List (Read × Bool)) (e : LoopError)
      → (client_loop (calls setting env) s p rounds).1 ≡ some e
      → ((client_loop (calls setting env) s p rounds).0.contexts p).disconnecting ≡ true
  client_loop-disconnecting s rounds e returned =
      client_loop-disconnect (calls setting env) p IsLeaving close-IsLeaving s rounds e returned
