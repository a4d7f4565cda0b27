-- ===== src/Gostratum/Handle/State.antt =====
-- The mining state and the extranonce of a worker under mining.subscribe and mining.authorize
-- (src/gostratum/worker_handle.go).
use kaspa_stratum_bridge.Base.{
  Option-cases, inl, inr, ◌≡◌, refl, ap, ◌∙◌, Bool, true, false, List, Option, none, some, ok, err,
  if◌then◌else◌,
}
use kaspa_stratum_bridge.Text.{Bytes, is_empty}
use kaspa_stratum_bridge.Model.{Value, JsonRpcEvent, string_at}
use kaspa_stratum_bridge.ChainNode.Wallet.{not_coercible, slice_out_of_range, clean_wallet}
use kaspa_stratum_bridge.Gostratum.Worker.{
  Env, WorkerContext, Error, panicked, wrapped, invalid_wallet, reply,
}
use kaspa_stratum_bridge.Gostratum.Worker.State.{marks, reply-marks, send-marks, insert_mqqt-marks}
use kaspa_stratum_bridge.Gostratum.Handle.Authorize.{two_params, handle_authorize_malformed}
use kaspa_stratum_bridge.Gostratum.Handle.{
  is_aleo, is_kaspa, take_identity, subscribe_as, handle_subscribe, send_extranonce, publish_login,
  record_login, after_reply, authorize_as, authorize_address, handle_authorize, pool_address,
}

-- A result whose worker has the state and the extranonce of another.
abbrev SameState : WorkerContext → WorkerContext × Option Error → Type 0
SameState sc r = marks r.0 ≡ marks sc

if_SameState :
    (b : Bool) (sc : WorkerContext) (x y : WorkerContext × Option Error)
    → SameState sc x
    → SameState sc y
    → SameState sc (if b then x else y)
if_SameState true sc x y h k = h
if_SameState false sc x y h k = k

publish_login-SameState :
    (env : Env) (sc : WorkerContext) (json : Option Bytes)
    → SameState sc (publish_login env sc json)
unfolding publish_login
publish_login-SameState env sc none = refl
publish_login-SameState env sc (some json) = insert_mqqt-marks (some json) sc

announce-marks :
    (env : Env) (sc : WorkerContext) (b : Bool)
    → marks (if b then sc else send_extranonce env sc) ≡ marks sc
unfolding send_extranonce
announce-marks env sc true = refl
announce-marks env sc false = send-marks env sc _

after_reply-SameState :
    (env : Env) (sc : WorkerContext) (r : Option Error) → SameState sc (after_reply env sc r)
unfolding after_reply record_login
after_reply-SameState env sc (some e) = refl
after_reply-SameState env sc none =
    publish_login-SameState env _ _ ∙ announce-marks env sc (is_empty sc.extranonce)

authorize_as-SameState :
    (env : Env) (sc : WorkerContext) (event : JsonRpcEvent) (address miner device : Bytes)
    → SameState sc (authorize_as env sc event address miner device)
unfolding authorize_as
authorize_as-SameState env sc event address miner device =
    after_reply-SameState env _ _ ∙ reply-marks env _ _

module _ (env : Env) (decode_address : Bytes → Bool) (sc : WorkerContext)
    (event : JsonRpcEvent) where
  authorize_address-SameState :
      (miner device : Bytes)
      → SameState sc (authorize_address env decode_address sc event miner device)
  unfolding authorize_address
  authorize_address-SameState miner device =
      elim (clean_wallet decode_address sc.app_name pool_address)
        as (λ r. SameState sc (elim r [
          | none ↦ (sc, some panicked)
          | some (err not_coercible) ↦ (sc, some (wrapped invalid_wallet))
          | some (err slice_out_of_range) ↦ (sc, some panicked)
          | some (ok address) ↦ authorize_as env sc event address miner device
        ])) [
          | none ↦ refl
          | some (err not_coercible) ↦ refl
          | some (err slice_out_of_range) ↦ refl
          | some (ok address) ↦ authorize_as-SameState env sc event address miner device
        ]

  -- Authorizing a worker changes none of its jobs, not its difficulty and not its extranonce.
  pub handle_authorize-marks : marks (handle_authorize env decode_address sc event).0 ≡ marks sc
  unfolding handle_authorize
  handle_authorize-marks = elim (Option-cases (string_at event.params 0)) [
    | inl e ↦ ap (λ r. marks r.0) (handle_authorize_malformed env decode_address sc event (inl e))
    | inr (miner, h) ↦ elim (Option-cases (string_at event.params 1)) [
      | inl e ↦ ap (λ r. marks r.0) (handle_authorize_malformed env decode_address sc event (inr e))
      | inr (device, k) ↦
          rw (two_params event.params device k, h, k, handle_authorize)
            (authorize_address-SameState miner device)
    ]
  ]

subscribe_as-SameState :
    (env : Env) (sc : WorkerContext) (event : JsonRpcEvent) (results : List Value)
    → SameState sc (subscribe_as env sc event results)
unfolding subscribe_as
subscribe_as-SameState env sc event results = after (reply env sc _) (reply-marks env sc _)
  where
    after :
        (r : WorkerContext × Option Error)
        → marks r.0 ≡ marks sc
        → SameState sc (elim r.1 [
          | some e ↦ (r.0, some (wrapped e))
          | none ↦ (take_identity event.params r.0, none)
        ])
    after (t, some e) h = h
    after (t, none) h = unfold take_identity in h

pub handle_subscribe-marks :
    (env : Env) (sc : WorkerContext) (event : JsonRpcEvent)
    → marks (handle_subscribe env sc event).0 ≡ marks sc
unfolding handle_subscribe
handle_subscribe-marks env sc event =
    if_SameState (is_aleo sc) sc _ _ (subscribe_as-SameState env sc event _)
      (if_SameState (is_kaspa sc) sc _ _ (subscribe_as-SameState env sc event _) refl)
