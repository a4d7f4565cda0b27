-- ===== src/Gostratum/Worker/Writes.antt =====
-- What a call of `writeWithBackoff` (src/gostratum/worker_context.go) did, by its result.
use kaspa_stratum_bridge.Base.{
  ℕ, zero, suc, ◌+◌, ◌≤◌, ◌≡◌, ◌≢◌, ◌↔◌, refl, ◌⊎◌, inl, inr, true, false, [], ◌∷◌, ◌++◌, Option,
  none, some, arith, Bool-cases, ap, ◌∙◌, ◌==◌, if◌then◌else◌,
}
use kaspa_stratum_bridge.Text.{Bytes}
use kaspa_stratum_bridge.Model.{JsonRpcEvent, JsonRpcResponse}
use kaspa_stratum_bridge.Gostratum.Worker.{
  Env, WorkerContext, Error, write_blocked, backoff_exhausted, write_failed, deadline_failed, write,
  interfere, write_rounds, write_with_backoff, is_blocked, send_encoded, reply, send, disconnected,
}

-- Attempt `n` found the lock taken by another goroutine.
abbrev pub IsBlocked : Env → ℕ → Type 0
IsBlocked env n = env.lock_seen n ≢ 0

-- Attempt `n` got the lock and the connection took the data.
abbrev pub IsWritten : Env → ℕ → Type 0
IsWritten env n = (env.lock_seen n ≡ 0) × (env.deadline_ok n ≡ true) × (env.write_ok n ≡ true)

-- Fields that writing leaves alone.
abbrev pub Frame : WorkerContext → WorkerContext → Type 0
Frame sc sc' = sc' ≡ record sc {
  write_lock = sc'.write_lock;
  attempts = sc'.attempts;
  wire = sc'.wire;
  spawned_disconnects = sc'.spawned_disconnects;
}

abbrev framed : WorkerContext → WorkerContext → WorkerContext
framed end sc = record sc {
  write_lock = end.write_lock;
  attempts = end.attempts;
  wire = end.wire;
  spawned_disconnects = end.spawned_disconnects;
}

module _ (env : Env) (bytes : Bytes) where
  -- The effects of some rounds, by their result.
  record Outcome (rounds : ℕ) (sc sc' : WorkerContext) (result : Option Error) : Type 0 where
    delivered : result ≡ none → sc'.wire ≡ sc.wire ++ bytes ∷ []
    withheld : result ≢ none → sc'.wire ≡ sc.wire
    at_most : sc'.attempts ≤ sc.attempts + rounds
    frame : Frame sc sc'

  round_Outcome :
      (sc : WorkerContext)
      → Outcome 1 sc (write env (interfere env sc) bytes).0 (write env (interfere env sc) bytes).1
  unfolding write interfere
  round_Outcome sc = record {
    delivered = ground arith;
    withheld = ground arith;
    at_most = ground arith;
    frame = ground arith;
  }

  -- A blocked round before the others.
  blocked_Outcome :
      (rounds : ℕ) (sc mid end : WorkerContext) (r result : Option Error)
      → is_blocked r ≡ true
      → Outcome 1 sc mid r
      → Outcome rounds mid end result
      → Outcome (suc rounds) sc end result
  blocked_Outcome rounds sc mid end r result b first later =
      let same : mid.wire ≡ sc.wire = first.withheld (λ e. ground (arith, b, e)) in
      record {
        delivered = λ e. later.delivered e ∙ ap (λ w. w ++ bytes ∷ []) same;
        withheld = λ e. later.withheld e ∙ same;
        at_most = omega (arith, first.at_most, later.at_most);
        frame = later.frame ∙ ap (framed end) first.frame;
      }

  write_rounds-Outcome :
      (rounds : ℕ) (sc : WorkerContext)
      → Outcome rounds sc (write_rounds env rounds sc bytes).0 (write_rounds env rounds sc bytes).1
  unfolding write_rounds
  write_rounds-Outcome zero sc = record {
    delivered = λ e. cc;
    withheld = λ _. refl;
    at_most = omega arith;
    frame = refl;
  }
  write_rounds-Outcome (suc rounds) sc =
      let first = round_Outcome sc in
      elim (Bool-cases (is_blocked (write env (interfere env sc) bytes).1)) [
        | inl b ↦ rw b (
            blocked_Outcome rounds sc _ _ _ _ b first
              (write_rounds-Outcome rounds (write env (interfere env sc) bytes).0))
        | inr done ↦ rw done (record {
          delivered = first.delivered;
          withheld = first.withheld;
          at_most = omega (arith, first.at_most);
          frame = first.frame;
        })
      ]

  -- One round's result, and the number of the next one.
  abbrev verdict : ℕ → Option Error
  verdict n =
      if env.lock_seen n == 0
      then (if env.deadline_ok n
          then (if env.write_ok n then none else some write_failed)
          else some deadline_failed)
      else some write_blocked

  round_verdict :
      (sc : WorkerContext)
      → ((write env (interfere env sc) bytes).1 ≡ verdict sc.attempts)
        × ((write env (interfere env sc) bytes).0.attempts ≡ sc.attempts + 1)
  unfolding write interfere
  round_verdict sc = (ground arith, ground arith)

  next_attempt : WorkerContext → WorkerContext
  next_attempt sc = (write env (interfere env sc) bytes).0

  next_attempt-attempts :
      (sc : WorkerContext) (n : ℕ) → sc.attempts ≡ n → (next_attempt sc).attempts ≡ n + 1
  unfolding next_attempt
  next_attempt-attempts sc n e = (round_verdict sc).1 ∙ ap (λ k. k + 1) e

  rounds_verdict :
      (rounds n : ℕ) (sc : WorkerContext)
      → sc.attempts ≡ n
      → (write_rounds env (suc rounds) sc bytes).1 ≡ (
          if is_blocked (verdict n)
          then (write_rounds env rounds (next_attempt sc) bytes).1
          else verdict n)
  unfolding write_rounds next_attempt
  rounds_verdict rounds n sc e = ground (arith, round_verdict sc)

  rounds_over : (sc : WorkerContext) → (write_rounds env 0 sc bytes).1 ≡ some backoff_exhausted
  unfolding write_rounds
  rounds_over sc = refl

  -- The verdicts of three attempts in turn.
  three_verdicts :
      (sc : WorkerContext) (n : ℕ)
      → sc.attempts ≡ n
      → (write_with_backoff env sc bytes).1 ≡ (
          if is_blocked (verdict n)
          then (if is_blocked (verdict (n + 1))
              then (if is_blocked (verdict (n + 2))
                  then some backoff_exhausted
                  else verdict (n + 2))
              else verdict (n + 1))
          else verdict n)
  unfolding write_with_backoff
  three_verdicts sc n e =
      let sc₁ = next_attempt sc in
      let sc₂ = next_attempt sc₁ in
      let e₁ : sc₁.attempts ≡ n + 1 = next_attempt-attempts sc n e in
      let e₂ : sc₂.attempts ≡ n + 2 = omega (arith, next_attempt-attempts sc₁ (n + 1) e₁) in
      rw (
        rounds_verdict 2 n sc e,
        rounds_verdict 1 (n + 1) sc₁ e₁,
        rounds_verdict 0 (n + 2) sc₂ e₂,
        rounds_over (next_attempt sc₂),
      )

  -- `writeWithBackoff` succeeds exactly when the first of three attempts that does not find the lock
  -- taken has its data accepted by the connection.
  pub write_with_backoff-IsWritten :
      (sc : WorkerContext)
      → let n = sc.attempts in
        ((write_with_backoff env sc bytes).1 ≡ none) ↔ (
          IsWritten env n
          ⊎ (IsBlocked env n × IsWritten env (n + 1))
          ⊎ (IsBlocked env n × IsBlocked env (n + 1) × IsWritten env (n + 2)))
  write_with_backoff-IsWritten sc =
      rw (three_verdicts sc sc.attempts refl) (ground arith, ground arith)

  -- `writeWithBackoff` makes at most three attempts; the connection takes the data once if it returned no error and
  -- never otherwise; and beside the lock, the wire, the number of attempts and of the goroutines
  -- started to disconnect it leaves the worker as it was.
  pub write_with_backoff_lem :
      (sc : WorkerContext)
      → let (sc', result) = write_with_backoff env sc bytes in
        (result ≡ none → sc'.wire ≡ sc.wire ++ bytes ∷ [])
        × (result ≢ none → sc'.wire ≡ sc.wire)
        × (sc'.attempts ≤ sc.attempts + 3)
        × Frame sc sc'
  unfolding write_with_backoff
  write_with_backoff_lem sc =
      let o = write_rounds-Outcome 3 sc in (o.delivered, o.withheld, o.at_most, o.frame)

module _ (env : Env) (sc : WorkerContext) where
  send_encoded-Frame : (encoded : Option Bytes) → Frame sc (send_encoded env sc encoded).0
  unfolding send_encoded
  send_encoded-Frame none = refl
  send_encoded-Frame (some encoded) = (write_with_backoff_lem env (encoded ++ b'\n' ∷ []) sc).3

  -- A reply or an event that is sent changes nothing but what writing changes.
  pub reply-Frame : (response : JsonRpcResponse) → Frame sc (reply env sc response).0
  unfolding reply
  reply-Frame response =
      elim sc.disconnecting
        as (λ b.
          Frame sc
            (if b
              then (sc, some disconnected)
              else send_encoded env sc (env.marshal_response response)).0) [
                | true ↦ refl
                | false ↦ send_encoded-Frame (env.marshal_response response)
              ]

  pub send-Frame : (event : JsonRpcEvent) → Frame sc (send env sc event).0
  unfolding send
  send-Frame event =
      elim sc.disconnecting
        as (λ b.
          Frame sc
            (if b
              then (sc, some disconnected)
              else send_encoded env sc (env.marshal_event event)).0) [
                | true ↦ refl
                | false ↦ send_encoded-Frame (env.marshal_event event)
              ]
