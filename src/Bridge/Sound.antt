-- ===== src/Bridge/Sound.antt =====
-- What holds in every state that the bridge (src/poolstratum/stratum_server.go) reaches.
use kaspa_stratum_bridge.Base.{
  ℕ, ◌+◌, ◌%◌, ◌^◌, ◌<◌, ◌≡◌, refl, ap, Bool, inl, List, ◌∷◌, ◌++◌, All, All-append, arith, some,
  Option, none,
}
use kaspa_stratum_bridge.Base.GoMap.{lookup}
use kaspa_stratum_bridge.Text.{Bytes}
use kaspa_stratum_bridge.Model.{JsonRpcEvent}
use kaspa_stratum_bridge.Prom.MiningState.{mining_state_generator}
use kaspa_stratum_bridge.Gostratum.Worker.{Env, WorkerContext}
use kaspa_stratum_bridge.Gostratum.Worker.State.{disconnect-marks}
use kaspa_stratum_bridge.Gostratum.Worker.NoPanic.{NoPanic}
use kaspa_stratum_bridge.Gostratum.Handle.State.{handle_subscribe-marks, handle_authorize-marks}
use kaspa_stratum_bridge.Gostratum.Listener.{Read, new_client}
use kaspa_stratum_bridge.Gostratum.Listener.Keeping.{Keeping, client_round_kept}
use kaspa_stratum_bridge.ChainNode.Notify.{Node}
use kaspa_stratum_bridge.ChainNode.Notify.Jobs.{IsEquipped}
use kaspa_stratum_bridge.Poolstratum.Stats.{new_share_handler}
use kaspa_stratum_bridge.Poolstratum.Stats.Listed.{names, Distinct}
use kaspa_stratum_bridge.Poolstratum.Stats.Totals.{
  Tally, blocks, shares, stales, invalids, total, tally, Accounts,
}
use kaspa_stratum_bridge.Poolstratum.Stats.Shown.{shown, Accounts-shown}
use kaspa_stratum_bridge.Poolstratum.Stats.Entry.{get_create_stats-Entry}
use kaspa_stratum_bridge.Poolstratum.Shares.WorkerState.{handle_submit-marks}
use kaspa_stratum_bridge.Poolstratum.Shares.Equipped.{handle_submit_equipped}
use kaspa_stratum_bridge.Poolstratum.Shares.NoPanic.{handle_submit-NoPanic}
use kaspa_stratum_bridge.Poolstratum.Listener.{new_workers_listener, on_connect, on_disconnect}
use kaspa_stratum_bridge.Poolstratum.Listener.Blocks.Equipped.{notify_worker-IsEquipped}
use kaspa_stratum_bridge.Bridge.{
  set_at, Setting, State, start, accept, new_block_available, answer_balances, tell, look_up, close,
  hang_up, subscribe, authorize, submit_share, calls, receive, world_of,
}
use kaspa_stratum_bridge.Bridge.Handlers.{handlers_kept}
use kaspa_stratum_bridge.Bridge.Memory.{
  All-map, All-middle, All-insert, All-delete, set_at_kept, select_clients-All,
}
use kaspa_stratum_bridge.Bridge.Reach.{
  Step, connection, reading, template, answering, telling, looking, closing, leaving, Reach, here,
  next,
}

pub record IsSound (setting : Setting) (s : State setting) : Type 0 where
  pub accounts : Accounts s.handler
  pub equipped : (p : ℕ) → IsEquipped (s.contexts p).state
  pub clients_allocated : All (λ e. e.1 < s.allocated) s.listener.clients
  pub waiting_allocated : All (λ p. p < s.allocated) s.listener.waiting
  pub notifying_allocated : All (λ p. p < s.allocated) s.notifying

mining_state_generator-IsEquipped : (now : ℕ) → IsEquipped (mining_state_generator now)
unfolding mining_state_generator
mining_state_generator-IsEquipped now = ((λ known. cc), inl refl)

pub new_share_handler-Accounts : Accounts new_share_handler
unfolding new_share_handler total lookup names Distinct
new_share_handler-Accounts = record {
  listed = record { single = tt; entries = λ k p h. cc; kept = λ p k h. cc };
  balanced = balance;
}
  where
    balance :
        (t : Tally) → total t new_share_handler.store % 2 ^ 64 ≡ tally t new_share_handler.overall
    balance blocks = refl
    balance shares = refl
    balance stales = refl
    balance invalids = refl

module _ (setting : Setting) where
  abbrev Sound : State setting → Type 0
  Sound = IsSound setting

  start-IsSound : (size : ℕ) → Sound (start setting size)
  unfolding start new_workers_listener new_client
  start-IsSound size = record {
    accounts = new_share_handler-Accounts;
    equipped = λ p. mining_state_generator-IsEquipped 0;
    clients_allocated = tt;
    waiting_allocated = tt;
    notifying_allocated = tt;
  }

  -- Writing a worker's context.
  written-IsSound :
      (s : State setting) (p : ℕ) (ctx : WorkerContext)
      → IsEquipped ctx.state
      → Sound s
      → Sound (record s { contexts = set_at p ctx s.contexts })
  written-IsSound s p ctx h sound = record {
    accounts = sound.accounts;
    equipped = set_at_kept (λ c. IsEquipped c.state) p ctx s.contexts h sound.equipped;
    clients_allocated = sound.clients_allocated;
    waiting_allocated = sound.waiting_allocated;
    notifying_allocated = sound.notifying_allocated;
  }

  close-IsSound : (env : Env) (s : State setting) (p : ℕ) → Sound s → Sound (close setting env s p)
  unfolding close
  close-IsSound env s p sound =
      written-IsSound s p _
        (rw (ap (λ m. m.0) (disconnect-marks env (s.contexts p))) (sound.equipped p)) sound

  subscribe-IsSound :
      (env : Env) (s : State setting) (p : ℕ) (event : JsonRpcEvent)
      → Sound s
      → Sound (subscribe setting env s p event).0
  unfolding subscribe
  subscribe-IsSound env s p event sound =
      written-IsSound s p _
        (rw (ap (λ m. m.0) (handle_subscribe-marks env (s.contexts p) event)) (sound.equipped p))
        sound

  authorize-IsSound :
      (env : Env) (s : State setting) (p : ℕ) (event : JsonRpcEvent)
      → Sound s
      → Sound (authorize setting env s p event).0
  unfolding authorize
  authorize-IsSound env s p event sound =
      written-IsSound s p _
        (rw (ap (λ m. m.0) (handle_authorize-marks env setting.decode_address (s.contexts p) event))
          (sound.equipped p))
        sound

  submit_share-IsSound :
      (env : Env) (s : State setting) (p : ℕ) (event : JsonRpcEvent)
      → Sound s
      → Sound (submit_share setting env s p event).0
  unfolding submit_share
  submit_share-IsSound env s p event sound = record {
    accounts =
        handle_submit_equipped setting.kaspad env setting.chain_type _ event (sound.equipped p)
          sound.accounts;
    equipped =
        set_at_kept (λ c. IsEquipped c.state) p _ s.contexts
          (rw
            (ap (λ m. m.0)
              (handle_submit-marks setting.kaspad env setting.chain_type (world_of setting s p)
                event))
            (sound.equipped p))
          sound.equipped;
    clients_allocated = sound.clients_allocated;
    waiting_allocated = sound.waiting_allocated;
    notifying_allocated = sound.notifying_allocated;
  }

  new_block_available-IsSound :
      (now : ℕ) (s : State setting) → Sound s → Sound (new_block_available setting now s)
  unfolding new_block_available
  new_block_available-IsSound now s sound = record {
    accounts = sound.accounts;
    equipped = sound.equipped;
    clients_allocated = sound.clients_allocated;
    waiting_allocated = sound.waiting_allocated;
    notifying_allocated =
        All-append (λ p. p < s.allocated) s.notifying _ sound.notifying_allocated
          (select_clients-All (λ p. p < s.allocated) setting.chain_type s.contexts
            s.listener.clients sound.clients_allocated);
  }

  calls-Keeping : (env : Env) (p : ℕ) → Keeping (calls setting env) p Sound
  calls-Keeping env p =
      handlers_kept setting p env Sound (λ s event h. subscribe-IsSound env s p event h)
        (λ s event h. authorize-IsSound env s p event h)
        (λ s event h. submit_share-IsSound env s p event h) (new_block_available-IsSound env.now)
        (λ s h. close-IsSound env s p h)

  receive-IsSound :
      (env : Env) (p : ℕ) (read : Read) (cancelled : Bool) (s : State setting)
      → Sound s
      → Sound (receive setting env p read cancelled s).0
  unfolding receive
  receive-IsSound env p read cancelled s sound =
      client_round_kept (calls setting env) p Sound (calls-Keeping env p) s read cancelled sound

  tell-IsSound :
      (node : Node) (env : Env) (p : ℕ) (s : State setting)
      → Sound s
      → Sound (tell setting node env p s)
  unfolding tell
  tell-IsSound node env p s sound = record {
    accounts = sound.accounts;
    equipped =
        set_at_kept (λ c. IsEquipped c.state) p _ s.contexts
          (notify_worker-IsEquipped setting.blake2b setting.floats node env setting.min_share_diff
            (s.contexts p) s.metrics (sound.equipped p))
          sound.equipped;
    clients_allocated = sound.clients_allocated;
    waiting_allocated = sound.waiting_allocated;
    notifying_allocated = sound.notifying_allocated;
  }

  look_up-IsSound : (now p : ℕ) (s : State setting) → Sound s → Sound (look_up setting now p s)
  unfolding look_up
  look_up-IsSound now p s sound = record {
    accounts =
        (get_create_stats-Entry s.handler s.metrics (s.contexts p) now sound.accounts).accounts;
    equipped = sound.equipped;
    clients_allocated = sound.clients_allocated;
    waiting_allocated = sound.waiting_allocated;
    notifying_allocated = sound.notifying_allocated;
  }

  hang_up-IsSound : (p : ℕ) (s : State setting) → Sound s → Sound (hang_up setting p s)
  unfolding hang_up on_disconnect
  hang_up-IsSound p s sound = record {
    accounts = sound.accounts;
    equipped = sound.equipped;
    clients_allocated =
        All-delete (λ e. e.1 < s.allocated) _ s.listener.clients sound.clients_allocated;
    waiting_allocated = sound.waiting_allocated;
    notifying_allocated = sound.notifying_allocated;
  }

  accept-IsSound :
      (now : ℕ) (remote : Bytes) (s : State setting) → Sound s → Sound (accept setting now remote s)
  unfolding accept on_connect new_client
  accept-IsSound now remote s sound = record {
    accounts = sound.accounts;
    equipped =
        set_at_kept (λ c. IsEquipped c.state) s.allocated _ s.contexts
          (mining_state_generator-IsEquipped now) sound.equipped;
    clients_allocated =
        All-insert (λ e. e.1 < s.allocated + 1) _ s.allocated s.listener.clients (omega arith)
          (All-map (λ e. e.1 < s.allocated) (λ e. e.1 < s.allocated + 1) s.listener.clients
            (λ e h. omega arith) sound.clients_allocated);
    waiting_allocated =
        All-append (λ p. p < s.allocated + 1) s.listener.waiting _
          (All-map (λ p. p < s.allocated) (λ p. p < s.allocated + 1) s.listener.waiting
            (λ p h. omega arith) sound.waiting_allocated)
          (omega arith, tt);
    notifying_allocated =
        All-map (λ p. p < s.allocated) (λ p. p < s.allocated + 1) s.notifying (λ p h. omega arith)
          sound.notifying_allocated;
  }

  -- Answers are not among the parts at stake.
  answered-IsSound :
      (answer : Option (List (Bytes × ℕ))) (s : State setting)
      → Sound s
      → Sound (answer_balances setting answer s)
  unfolding answer_balances
  answered-IsSound none s sound = sound
  answered-IsSound (some entries) s sound = record {
    accounts = sound.accounts;
    equipped = sound.equipped;
    clients_allocated = sound.clients_allocated;
    waiting_allocated = sound.waiting_allocated;
    notifying_allocated = sound.notifying_allocated;
  }

  asking-IsSound :
      (s : State setting) (asking : List (List Bytes))
      → Sound s
      → Sound (record s { asking = asking })
  asking-IsSound s asking sound = record {
    accounts = sound.accounts;
    equipped = sound.equipped;
    clients_allocated = sound.clients_allocated;
    waiting_allocated = sound.waiting_allocated;
    notifying_allocated = sound.notifying_allocated;
  }

  -- A goroutine that is taken off its list.
  taken_notifying-IsSound :
      (s : State setting) (p : ℕ) (before after : List ℕ)
      → s.notifying ≡ before ++ p ∷ after
      → Sound s
      → Sound (record s { notifying = before ++ after })
  taken_notifying-IsSound s p before after e sound = record {
    accounts = sound.accounts;
    equipped = sound.equipped;
    clients_allocated = sound.clients_allocated;
    waiting_allocated = sound.waiting_allocated;
    notifying_allocated =
        All-middle (λ p. p < s.allocated) before p after (rw⁻¹ e sound.notifying_allocated);
  }

  taken_waiting-IsSound :
      (s : State setting) (p : ℕ) (before after : List ℕ)
      → s.listener.waiting ≡ before ++ p ∷ after
      → Sound s
      → Sound (record s { listener = record s.listener { waiting = before ++ after } })
  taken_waiting-IsSound s p before after e sound = record {
    accounts = sound.accounts;
    equipped = sound.equipped;
    clients_allocated = sound.clients_allocated;
    waiting_allocated =
        All-middle (λ p. p < s.allocated) before p after (rw⁻¹ e sound.waiting_allocated);
    notifying_allocated = sound.notifying_allocated;
  }

Step-IsSound :
    (setting : Setting) {s t : State setting}
    → Step setting s t
    → IsSound setting s
    → IsSound setting t
Step-IsSound setting (connection s now remote) sound = accept-IsSound setting now remote s sound
Step-IsSound setting (reading s env p read cancelled allocated) sound =
    receive-IsSound setting env p read cancelled s sound
Step-IsSound setting (template s now) sound = new_block_available-IsSound setting now s sound
Step-IsSound setting (answering s answer asked before after e) sound =
    answered-IsSound setting answer _ (asking-IsSound setting s _ sound)
Step-IsSound setting (telling s node env p before after e) sound =
    tell-IsSound setting node env p _ (taken_notifying-IsSound setting s p before after e sound)
Step-IsSound setting (looking s now p before after e) sound =
    look_up-IsSound setting now p _ (taken_waiting-IsSound setting s p before after e sound)
Step-IsSound setting (closing s env p pending) sound = close-IsSound setting env s p sound
Step-IsSound setting (leaving s p pending) sound = hang_up-IsSound setting p s sound

Reach-IsSound :
    (setting : Setting) {s t : State setting}
    → Reach setting s t
    → IsSound setting s
    → IsSound setting t
Reach-IsSound setting here sound = sound
Reach-IsSound setting (next reach step) sound =
    Step-IsSound setting step (Reach-IsSound setting reach sound)

pub reached-IsSound :
    (setting : Setting) (size : ℕ) (s : State setting)
    → Reach setting (start setting size) s
    → IsSound setting s
reached-IsSound setting size s reach = Reach-IsSound setting reach (start-IsSound setting size)

-- In every state that the bridge reaches from its start: each entry of the map of statistics points to a
-- record with the entry's name as its device, no name stands there twice, and each record that was made
-- and whose device is not empty stands there under it; the pool's counters are the sums of the counters of
-- all records that were made, modulo the width of an int64, which are the sum over the map's entries and
-- the sum over the records that no entry points to; a worker that is initialized or has jobs has a
-- difficulty; and the map of clients, the pending statistics and the pending notifications only point to
-- workers that were accepted before, which may have left since. Whole calls take turns.
pub start-IsSound_reached :
    (setting : Setting) (size : ℕ) (s : State setting)
    → Reach setting (start setting size) s
    → IsSound setting s × ((t : Tally) → shown t s.handler % 2 ^ 64 ≡ tally t s.handler.overall)
start-IsSound_reached setting size s reach =
    let sound = reached-IsSound setting size s reach in
    (sound, λ t. Accounts-shown t s.handler sound.accounts)

-- In every state that the bridge reaches from its start, a mining.submit of any worker, whatever its
-- parameters are, does not panic: the difficulty that a share reads is there. Whole calls take turns.
pub submit_share_reached :
    (setting : Setting) (size : ℕ) (s : State setting) (env : Env) (p : ℕ) (event : JsonRpcEvent)
    → Reach setting (start setting size) s
    → NoPanic (submit_share setting env s p event).1
unfolding submit_share
submit_share_reached setting size s env p event reach =
    handle_submit-NoPanic setting.kaspad env setting.chain_type _ event
      ((reached-IsSound setting size s reach).equipped p)
