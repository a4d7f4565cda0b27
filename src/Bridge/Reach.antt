-- ===== src/Bridge/Reach.antt =====
-- What the bridge (src/poolstratum/stratum_server.go) can do next, and the states that it reaches.
use kaspa_stratum_bridge.Base.{ℕ, ◌<◌, ◌≡◌, Bool, List, ◌∷◌, ◌++◌, Option}
use kaspa_stratum_bridge.Text.{Bytes}
use kaspa_stratum_bridge.Gostratum.Worker.{Env}
use kaspa_stratum_bridge.Gostratum.Listener.{Read}
use kaspa_stratum_bridge.ChainNode.Notify.{Node}
use kaspa_stratum_bridge.Bridge.{
  Setting, State, accept, new_block_available, answer_balances, tell, look_up, close, hang_up,
  receive,
}

module _ (setting : Setting) where
  -- What the environment can make the bridge do: a connection, a read on one, a block template, one of
  -- the goroutines that were started, a goroutine of a failed write that disconnects its worker, and
  -- a received disconnection.
  -- A worker's connection may also be read after its loop has returned, and a goroutine of a failed
  -- write may run more than once: the steps of the bridge are among these.
  pub data Step : State setting → State setting → Type 0 where
    connection :
        (s : State setting) (now : ℕ) (remote : Bytes) → Step s (accept setting now remote s)
    reading :
        (s : State setting) (env : Env) (p : ℕ) (read : Read) (cancelled : Bool)
        → p < s.allocated
        → Step s (receive setting env p read cancelled s).0
    template : (s : State setting) (now : ℕ) → Step s (new_block_available setting now s)
    telling :
        (s : State setting) (node : Node) (env : Env) (p : ℕ) (before after : List ℕ)
        → s.notifying ≡ before ++ p ∷ after
        → Step s (tell setting node env p (record s { notifying = before ++ after }))
    answering :
        (s : State setting) (answer : Option (List (Bytes × ℕ))) (asked : List Bytes)
        (before after : List (List Bytes))
        → s.asking ≡ before ++ asked ∷ after
        → Step s (answer_balances setting answer (record s { asking = before ++ after }))
    looking :
        (s : State setting) (now p : ℕ) (before after : List ℕ)
        → s.listener.waiting ≡ before ++ p ∷ after
        → Step s (
            look_up setting now p
              (record s { listener = record s.listener { waiting = before ++ after } }))
    closing :
        (s : State setting) (env : Env) (p : ℕ)
        → 0 < (s.contexts p).spawned_disconnects
        → Step s (close setting env s p)
    leaving :
        (s : State setting) (p : ℕ)
        → s.heard p < (s.contexts p).notifications
        → Step s (hang_up setting p s)

  pub data Reach (s : State setting) : State setting → Type 0 where
    here : Reach s s
    next : {t u : State setting} → Reach s t → Step t u → Reach s u
