-- ===== src/ChainNode/AleoNode/Work.antt =====
-- The job that the chain node (src/chainnode/node.go) takes from the messages of the upstream pool
-- (src/chainnode/aleo/aleonode.go).
use kaspa_stratum_bridge.Base.{
  ℕ, zero, suc, ◌≡◌, ◌==◌, refl, ap, ◌∙◌, List, [], ◌∷◌, ◌++◌, map, All, length, Option, none, some,
  Result, ok, err, if◌then◌else◌,
}
use kaspa_stratum_bridge.Base.Int.{ℤ, pos}
use kaspa_stratum_bridge.Text.{Bytes}
use kaspa_stratum_bridge.Model.{Value, JsonRpcEvent}
use kaspa_stratum_bridge.Gostratum.Worker.{Error}
use kaspa_stratum_bridge.Gostratum.Lines.Framing.{framed}
use kaspa_stratum_bridge.ChainNode.Aleo.{received, each_line, listen}
use kaspa_stratum_bridge.ChainNode.AleoNode.{
  AleoNode, set_last_work, get_last_work, event_or_zero, on_line,
}
use kaspa_stratum_bridge.ChainNode.AleoNode.Messages.{Fits, concat, listen-framed}

pub data WorkError : Type 0 where
  no_last_work : WorkError
  not_six_params : WorkError

-- `GetNotifyParams` of src/chainnode/node.go for the chain aleo.
unfoldable pub work_params : Option JsonRpcEvent → Result WorkError (ℤ × List Value)
work_params none = err no_last_work
work_params (some work) =
    if length work.params == 6 then ok (pos 0, work.params) else err not_six_params

unfoldable pub aleo_notify_params : AleoNode → Result WorkError (ℤ × List Value)
unfolding work_params get_last_work
aleo_notify_params node = work_params (get_last_work node)

-- A function applied a number of times.
abbrev pub times {ℓ} : {A : Type ℓ} → ℕ → (A → A) → A → A
times zero f a = a
times (suc n) f a = times n f (f a)

module _ {S : Type 0} (unmarshal_event : Bytes → Option JsonRpcEvent) (block_cb : S → S) where
  abbrev line_cb : AleoNode × S → Bytes → (AleoNode × S) × Option Error
  line_cb = on_line unmarshal_event block_cb

  each_line-last :
      (lines : List Bytes) (line : Bytes) (node : AleoNode) (s : S)
      → each_line line_cb (node, s) (lines ++ line ∷ []) ≡ (
        (
          set_last_work (some (event_or_zero (unmarshal_event line))) node,
          times (length (lines ++ line ∷ [])) block_cb s,
        ),
        none,
      )
  unfolding each_line on_line set_last_work
  each_line-last [] line node s = refl
  each_line-last (first ∷ lines) line node s = each_line-last lines line _ (block_cb s)

  -- After the messages of the upstream pool, however they are spread over reads that hold whole
  -- messages, the client still listens, the callback has run once for each of them, and a job has the
  -- parameters of the last message if there are six; otherwise there is no job, also if the last
  -- message could not be read.
  pub aleo_notify_params-listen :
      (node : AleoNode) (s : S) (chunks : List (List Bytes)) (lines : List Bytes) (line : Bytes)
      → All Fits chunks
      → concat chunks ≡ lines ++ line ∷ []
      → let (st, result) = listen line_cb (node, s) (map (λ ls. received (framed ls)) chunks) in
        (result ≡ none)
        × (st.1 ≡ times (length (concat chunks)) block_cb s)
        × (aleo_notify_params st.0 ≡ work_params (some (event_or_zero (unmarshal_event line))))
  unfolding aleo_notify_params set_last_work
  aleo_notify_params-listen node s chunks lines line fits e =
      let all = listen-framed line_cb (node, s) chunks fits in
      let last = ap (each_line line_cb (node, s)) e ∙ each_line-last lines line node s in
      rw (all, last, e) (refl, refl, refl)
