-- ===== src/Gostratum/Worker/NoPanic.antt =====
-- The errors of `Reply` and `Send` (src/gostratum/stratum_client.go) are returned, not panics.
use kaspa_stratum_bridge.Base.{
  ℕ, zero, suc, ◌≡◌, ◌==◌, Bool, true, false, Option, none, some, if◌then◌else◌,
}
use kaspa_stratum_bridge.Text.{Bytes}
use kaspa_stratum_bridge.Model.{JsonRpcResponse}
use kaspa_stratum_bridge.Gostratum.Worker.{
  Env, WorkerContext, Error, panicked, write_locked, write, write_rounds, write_with_backoff,
  interfere, send_encoded, reply,
}

abbrev pub NoPanic : Option Error → Type 0
NoPanic result = ¬ (result ≡ some panicked)

if_NoPanic :
    (b : Bool) (x y : WorkerContext × Option Error)
    → NoPanic x.1
    → NoPanic y.1
    → NoPanic (if b then x else y).1
if_NoPanic true x y h k = h
if_NoPanic false x y h k = k

module _ (env : Env) where
  write_locked-NoPanic :
      (sc : WorkerContext) (bytes : Bytes) → NoPanic (write_locked env sc bytes).1
  unfolding write_locked
  write_locked-NoPanic sc bytes =
      if_NoPanic (env.deadline_ok sc.attempts) _ _
        (if_NoPanic (env.write_ok sc.attempts) _ _ (λ e. cc) (λ e. cc)) (λ e. cc)

  write-NoPanic : (sc : WorkerContext) (bytes : Bytes) → NoPanic (write env sc bytes).1
  unfolding write
  write-NoPanic sc bytes =
      if_NoPanic (sc.write_lock == 0) _ _ (write_locked-NoPanic sc bytes) (λ e. cc)

  write_rounds-NoPanic :
      (rounds : ℕ) (sc : WorkerContext) (bytes : Bytes)
      → NoPanic (write_rounds env rounds sc bytes).1
  unfolding write_rounds
  write_rounds-NoPanic zero sc bytes = λ e. cc
  write_rounds-NoPanic (suc rounds) sc bytes =
      if_NoPanic _ _ _ (write_rounds-NoPanic rounds (write env (interfere env sc) bytes).0 bytes)
        (write-NoPanic (interfere env sc) bytes)

  send_encoded-NoPanic :
      (sc : WorkerContext) (encoded : Option Bytes) → NoPanic (send_encoded env sc encoded).1
  unfolding send_encoded write_with_backoff
  send_encoded-NoPanic sc none = λ e. cc
  send_encoded-NoPanic sc (some encoded) = write_rounds-NoPanic 3 sc _

  pub reply-NoPanic :
      (sc : WorkerContext) (response : JsonRpcResponse) → NoPanic (reply env sc response).1
  unfolding reply
  reply-NoPanic sc response = if_NoPanic sc.disconnecting _ _ (λ e. cc) (send_encoded-NoPanic sc _)
