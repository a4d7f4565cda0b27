-- ===== src/Bridge/Handlers.antt =====
-- What the handlers of the bridge keep (src/poolstratum/stratum_server.go), the stratum listener's calls keep.
use kaspa_stratum_bridge.Base.{ℕ, Bool-cases, inl, inr, Option, some}
use kaspa_stratum_bridge.Text.{Bytes, bytes_beq}
use kaspa_stratum_bridge.Model.{JsonRpcEvent, method_subscribe, method_authorize, method_submit}
use kaspa_stratum_bridge.Gostratum.Worker.{Env, Error}
use kaspa_stratum_bridge.Gostratum.Listener.Keeping.{EntryKeeps, Keeping}
use kaspa_stratum_bridge.Bridge.{
  HandlerMap, Setting, State, new_block_available, close, subscribe, authorize, submit_share,
  handlers, calls, default_handlers, share_proxy, workers_proxy,
}

module _ (setting : Setting) (worker : ℕ) where
  default-EntryKeeps :
      (P : State setting → Type 0) (method : Bytes) → EntryKeeps worker P (default_handlers method)
  unfolding default_handlers
  default-EntryKeeps P method = elim (Bool-cases (bytes_beq method method_subscribe)) [
    | inl same ↦ rw same (λ s event h. h)
    | inr other ↦ elim (Bool-cases (bytes_beq method method_authorize)) [
      | inl same ↦ rw (other, same) (λ s event h. h)
      | inr different ↦ elim (Bool-cases (bytes_beq method method_submit)) [
        | inl same ↦ rw (other, different, same) (λ s event h. h)
        | inr none_of ↦ rw (other, different, none_of) tt
      ]
    ]
  ]

  workers-EntryKeeps :
      (P : State setting → Type 0)
      (f g : State setting → ℕ → JsonRpcEvent → State setting × Option Error)
      (below : HandlerMap (State setting)) (method : Bytes)
      → EntryKeeps worker P (some f)
      → EntryKeeps worker P (some g)
      → EntryKeeps worker P (below method_submit)
      → EntryKeeps worker P (workers_proxy f g below method)
  unfolding workers_proxy
  workers-EntryKeeps P f g below method hf hg hb =
      elim (Bool-cases (bytes_beq method method_subscribe)) [
        | inl same ↦ rw same hf
        | inr other ↦ elim (Bool-cases (bytes_beq method method_authorize)) [
          | inl same ↦ rw (other, same) hg
          | inr different ↦ elim (Bool-cases (bytes_beq method method_submit)) [
            | inl same ↦ rw (other, different, same) hb
            | inr none_of ↦ rw (other, different, none_of) tt
          ]
        ]
      ]

  share-EntryKeeps :
      (P : State setting → Type 0)
      (f : State setting → ℕ → JsonRpcEvent → State setting × Option Error)
      (below : HandlerMap (State setting)) (method : Bytes)
      → EntryKeeps worker P (some f)
      → ((m : Bytes) → EntryKeeps worker P (below m))
      → EntryKeeps worker P (share_proxy f below method)
  unfolding share_proxy
  share-EntryKeeps P f below method hf hb = elim (Bool-cases (bytes_beq method method_subscribe)) [
    | inl same ↦ rw same (hb method_subscribe)
    | inr other ↦ elim (Bool-cases (bytes_beq method method_authorize)) [
      | inl same ↦ rw (other, same) (hb method_authorize)
      | inr different ↦ elim (Bool-cases (bytes_beq method method_submit)) [
        | inl same ↦ rw (other, different, same) hf
        | inr none_of ↦ rw (other, different, none_of) tt
      ]
    ]
  ]

  -- What mining.subscribe, mining.authorize, mining.submit, a new block and `Disconnect` keep, all calls keep.
  pub handlers_kept :
      (env : Env) (P : State setting → Type 0)
      → EntryKeeps worker P (some (subscribe setting env))
      → EntryKeeps worker P (some (authorize setting env))
      → EntryKeeps worker P (some (submit_share setting env))
      → ((s : State setting) → P s → P (new_block_available setting env.now s))
      → ((s : State setting) → P s → P (close setting env s worker))
      → Keeping (calls setting env) worker P
  handlers_kept env P on_subscribe on_authorize on_submit on_block on_close = record {
    handlers = λ method.
        unfold handlers in
        (workers-EntryKeeps P _ _ _ method on_subscribe on_authorize
          (share-EntryKeeps P _ _ method_submit on_submit (default-EntryKeeps P)));
    new_block = on_block;
    disconnects = on_close;
  }
