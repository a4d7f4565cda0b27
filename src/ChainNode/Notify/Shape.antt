-- ===== src/ChainNode/Notify/Shape.antt =====
-- The parameters of mining.notify that `GetNotifyParams` (src/chainnode/node.go) returns, for each chain.
use kaspa_stratum_bridge.Base.{
  ℕ, ◌^◌, ◌<◌, ◌≡◌, refl, sym, ap, ◌∙◌, arith, List, [], ◌∷◌, Bool, true, false, inl, inr, Option,
  none, some, Option-cases, Result, ok, err, map,
}
use kaspa_stratum_bridge.Base.Int.{ℤ}
use kaspa_stratum_bridge.Text.{Bytes}
use kaspa_stratum_bridge.Text.Digits.{format_int}
use kaspa_stratum_bridge.Text.Endian.{le_number}
use kaspa_stratum_bridge.Model.{Value, int, text, array, to_values}
use kaspa_stratum_bridge.Prom.Block.{RpcBlock}
use kaspa_stratum_bridge.Prom.Difficulty.{BigFloats}
use kaspa_stratum_bridge.Prom.Header.{Blake2b}
use kaspa_stratum_bridge.Prom.Hasher.{
  uint64_at, reprint, generate_job_header, generate_large_job_params,
}
use kaspa_stratum_bridge.Prom.Metrics.{Metrics}
use kaspa_stratum_bridge.Gostratum.Worker.{Env, WorkerContext, Error}
use kaspa_stratum_bridge.ChainNode.Notify.Jobs.{wallet_given}
use kaspa_stratum_bridge.ChainNode.Notify.{
  Node, Notified, job_params, finish_job, after_difficulty, with_header, with_template,
  get_notify_params,
}

-- Four words of 64 bits.
abbrev pub IsFourWords : List ℕ → Type 0
IsFourWords ws =
    (a b c d : ℕ) × (ws ≡ a ∷ b ∷ c ∷ d ∷ [])
    × (a < 2 ^ 64)
    × (b < 2 ^ 64)
    × (c < 2 ^ 64)
    × (d < 2 ^ 64)

-- A job for a miner with big jobs has its number and one text; one for another miner has its number,
-- four words and the timestamp.
abbrev pub IsKaspaJob : Bool → ℤ → List Value → Type 0
IsKaspaJob true id params = (s : Bytes) × (params ≡ text (format_int id) ∷ text s ∷ [])
IsKaspaJob false id params =
    (ws : List ℕ) × (t : ℕ) × IsFourWords ws
    × (params ≡ text (format_int id) ∷ array (to_values (map int ws)) ∷ int t ∷ [])

word_bound : (v : ℕ) → reprint v < 2 ^ 64
unfolding reprint
word_bound v = omega arith

header-IsFourWords :
    (header : Bytes) (ws : List ℕ) → generate_job_header header ≡ some ws → IsFourWords ws
unfolding generate_job_header
header-IsFourWords header ws h = elim (Option-cases (uint64_at le_number header 0)) [
  | inl e ↦ absurd (short (sym h ∙ rw e refl))
  | inr (a, ea) ↦ elim (Option-cases (uint64_at le_number header 8)) [
    | inl e ↦ absurd (short (sym h ∙ rw (ea, e) refl))
    | inr (b, eb) ↦ elim (Option-cases (uint64_at le_number header 16)) [
      | inl e ↦ absurd (short (sym h ∙ rw (ea, eb, e) refl))
      | inr (c, ec) ↦ elim (Option-cases (uint64_at le_number header 24)) [
        | inl e ↦ absurd (short (sym h ∙ rw (ea, eb, ec, e) refl))
        | inr (d, ed) ↦ (
          reprint a,
          reprint b,
          reprint c,
          reprint d,
          only (sym h ∙ rw (ea, eb, ec, ed) refl),
          word_bound a,
          word_bound b,
          word_bound c,
          word_bound d,
        )
      ]
    ]
  ]
]
  where
    short : some ws ≡ none → ⊥
    short e = cc

    only : {vs : List ℕ} → some ws ≡ some vs → ws ≡ vs
    only e = cc

params-IsKaspaJob :
    (big : Bool) (header : Bytes) (block : RpcBlock) (rest : List Value) (id : ℤ)
    → job_params big header block ≡ some rest
    → IsKaspaJob big id (text (format_int id) ∷ rest)
unfolding job_params
params-IsKaspaJob true header block rest id h =
    elim (Option-cases (generate_large_job_params header block.header.timestamp)) [
      | inl e ↦ absurd (nothing (sym h ∙ rw e refl))
      | inr (s, e) ↦ (s, ap (◌∷◌ (text (format_int id))) (only (sym h ∙ rw e refl)))
    ]
  where
    nothing : some rest ≡ none → ⊥
    nothing e = cc

    only : {vs : List Value} → some rest ≡ some vs → rest ≡ vs
    only e = cc
params-IsKaspaJob false header block rest id h = elim (Option-cases (generate_job_header header)) [
  | inl e ↦ absurd (nothing (sym h ∙ rw e refl))
  | inr (ws, e) ↦ (
    ws,
    block.header.timestamp,
    header-IsFourWords header ws e,
    ap (◌∷◌ (text (format_int id))) (only (sym h ∙ rw e refl)),
  )
]
  where
    nothing : some rest ≡ none → ⊥
    nothing e = cc

    only : {vs : List Value} → some rest ≡ some vs → rest ≡ vs
    only e = cc

-- A job that is returned has the form that the worker's state says.
abbrev pub Shaped : Notified → Type 0
Shaped r =
    (id : ℤ) (params : List Value)
    → r.2 ≡ ok (id, params)
    → IsKaspaJob r.0.state.use_big_job id params

module _ (blake2b : Blake2b) (floats : BigFloats) (node : Node) (env : Env) where
  finish_job-Shaped :
      (sc : WorkerContext) (m : Metrics) (id : ℤ) (header : Bytes) (block : RpcBlock)
      (params : Option (List Value))
      → job_params sc.state.use_big_job header block ≡ params
      → Shaped (finish_job blake2b floats node env sc m id params)
  unfolding finish_job
  finish_job-Shaped sc m id header block none e id' params' h = cc
  finish_job-Shaped sc m id header block (some rest) e id' params' h =
      let number : id ≡ id' = cc in
      let parameters : text (format_int id) ∷ rest ≡ params' = cc in
      rw⁻¹ number (rw⁻¹ parameters (params-IsKaspaJob sc.state.use_big_job header block rest id e))

  after_difficulty-Shaped :
      (r : WorkerContext × Option Error) (m : Metrics) (id : ℤ) (header : Bytes) (block : RpcBlock)
      → Shaped (after_difficulty blake2b floats node env r m id header block)
  unfolding after_difficulty
  after_difficulty-Shaped (sc, some e) m id header block id' params h = cc
  after_difficulty-Shaped (sc, none) m id header block id' params h =
      finish_job-Shaped sc m id header block _ refl id' params h

  with_header-Shaped :
      (sc : WorkerContext) (m : Metrics) (diff : ℕ) (block : RpcBlock) (header : Result Bytes Bytes)
      → Shaped (with_header blake2b floats node env sc m diff block header)
  unfolding with_header
  with_header-Shaped sc m diff block (err e) id params h = cc
  with_header-Shaped sc m diff block (ok header) id params h =
      after_difficulty-Shaped _ m _ header block id params h

  with_template-Shaped :
      (sc : WorkerContext) (m : Metrics) (diff : ℕ) (answer : Result Bytes RpcBlock)
      → Shaped (with_template blake2b floats node env sc m diff answer)
  unfolding with_template
  with_template-Shaped sc m diff (ok block) id params h =
      with_header-Shaped _ m diff block _ id params h
  with_template-Shaped sc m diff (err message) id params h = absurd (ground (arith, h))

  pub get_notify_params-Shaped :
      (sc : WorkerContext) (m : Metrics) (diff : ℕ)
      → Shaped (get_notify_params blake2b floats node env sc m diff)
  get_notify_params-Shaped sc m diff id params h =
      let given = wallet_given blake2b floats node env sc m diff id params h in
      rw given (with_template-Shaped sc m diff _ id params (sym (ap (λ r. r.2) given) ∙ h))
