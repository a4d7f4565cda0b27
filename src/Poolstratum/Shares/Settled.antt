-- ===== src/Poolstratum/Shares/Settled.antt =====
-- What a share with a readable nonce adds to the counters (src/poolstratum/share_handler.go).
use kaspa_stratum_bridge.Base.{
  ℕ, ◌≤◌, ◌<◌, ◌≡◌, refl, ap, ◌∙◌, inl, inr, Option, none, some, arith, length, leb, Bool-cases,
  if◌then◌else◌,
}
use kaspa_stratum_bridge.Text.{Bytes, bytes_beq, codes, contains}
use kaspa_stratum_bridge.Model.{Value, JsonRpcEvent}
use kaspa_stratum_bridge.ChainNode.{chain_type_kaspa}
use kaspa_stratum_bridge.Prom.Difficulty.{KaspaDiff}
use kaspa_stratum_bridge.Gostratum.Worker.{Env}
use kaspa_stratum_bridge.Poolstratum.Stats.{WorkStats, ShareHandler, add_one, get_create_stats}
use kaspa_stratum_bridge.Poolstratum.Stats.Listed.{KeepsName}
use kaspa_stratum_bridge.Poolstratum.Stats.Totals.{
  blocks, shares, stales, invalids, Accounts, Agree, modify-Accounts, length-modify,
}
use kaspa_stratum_bridge.Poolstratum.Stats.Entry.{get_create_stats-Entry}
use kaspa_stratum_bridge.Poolstratum.Shares.{
  Kaspad, World, SubmitInfo, add_stale, add_invalid, add_block, add_share, count, after_submit,
  temp_kasp_submit, submit, record_share, submit_if_solved, handle_converted, handle_block,
}

stale_agrees : Agree add_stale add_stale
stale_agrees blocks = inl ((λ s. refl), (λ s. refl))
stale_agrees shares = inl ((λ s. refl), (λ s. refl))
stale_agrees stales = inr ((λ s. refl), (λ s. refl))
stale_agrees invalids = inl ((λ s. refl), (λ s. refl))

invalid_agrees : Agree add_invalid add_invalid
invalid_agrees blocks = inl ((λ s. refl), (λ s. refl))
invalid_agrees shares = inl ((λ s. refl), (λ s. refl))
invalid_agrees stales = inl ((λ s. refl), (λ s. refl))
invalid_agrees invalids = inr ((λ s. refl), (λ s. refl))

block_agrees : Agree add_block add_block
block_agrees blocks = inr ((λ s. refl), (λ s. refl))
block_agrees shares = inl ((λ s. refl), (λ s. refl))
block_agrees stales = inl ((λ s. refl), (λ s. refl))
block_agrees invalids = inl ((λ s. refl), (λ s. refl))

module _ (kaspad : Kaspad) (env : Env) where
  open kaspad use {DomainBlock, to_domain, set_nonce, pow_value, target, submit_block, add_float}

  -- What a submission to the node leaves of the accounts: they are kept, pointers stay good and
  -- `add` is what was added to the overall counters.
  pub record Settled (sh sh' : ShareHandler) (add : WorkStats → WorkStats) : Type 0 where
    pub accounts : Accounts sh'
    pub grows : length sh.store ≤ length sh'.store
    pub added : sh'.overall ≡ add sh.overall

  count-Settled :
      (add : WorkStats → WorkStats) (w : World DomainBlock)
      → Agree add add
      → KeepsName add
      → Accounts w.handler
      → Settled w.handler (count kaspad env add w).handler add
  unfolding count
  count-Settled add w agree named a =
      let e = get_create_stats-Entry w.handler w.metrics w.worker env.now a in
      let (sh, p, m) = get_create_stats w.handler w.metrics w.worker env.now in
      record {
        accounts = modify-Accounts sh p add add agree named e.in_store e.accounts;
        grows = omega (arith, e.grows, length-modify add p sh.store);
        added = ap add e.overall_kept;
      }

  -- What the node's answer adds.
  abbrev pub verdict : Option Bytes → WorkStats → WorkStats
  verdict none = add_block
  verdict (some message) =
      if contains message (codes "ErrDuplicateBlock") then add_stale else add_invalid

  after_submit-Settled :
      (w : World DomainBlock) (block : DomainBlock) (id : Value) (answer : Option Bytes)
      → Accounts w.handler
      → Settled w.handler (after_submit kaspad env w block id answer).handler (verdict answer)
  unfolding after_submit
  after_submit-Settled w block id none a = count-Settled add_block w block_agrees (λ s. refl) a
  after_submit-Settled w block id (some message) a =
      elim (Bool-cases (contains message (codes "ErrDuplicateBlock"))) [
        | inl stale ↦ rw stale (count-Settled add_stale w stale_agrees (λ s. refl) a)
        | inr other ↦ rw other (count-Settled add_invalid w invalid_agrees (λ s. refl) a)
      ]

  keep_Settled : (sh : ShareHandler) → Accounts sh → Settled sh sh (λ s. s)
  keep_Settled sh a = record { accounts = a; grows = omega arith; added = refl }

  -- What the block of a share adds: nothing if its proof of work misses the target, or else what the
  -- node answers.
  abbrev pub block_adds : Bytes → World DomainBlock → DomainBlock → WorkStats → WorkStats
  block_adds chain_type w block =
      if leb (pow_value block) (target block)
      then (if bytes_beq chain_type chain_type_kaspa
          then verdict (submit_block (length w.submitted) block)
          else (λ s. s))
      else (λ s. s)

  submit-Settled :
      (chain_type : Bytes) (w : World DomainBlock) (converted : DomainBlock) (nonce : ℕ)
      (id : Value)
      → Accounts w.handler
      → Settled w.handler (submit kaspad env chain_type w converted nonce id).handler (
          if bytes_beq chain_type chain_type_kaspa
          then verdict (submit_block (length w.submitted) (set_nonce converted nonce))
          else (λ s. s))
  unfolding submit temp_kasp_submit
  submit-Settled chain_type w converted nonce id a =
      elim (Bool-cases (bytes_beq chain_type chain_type_kaspa)) [
        | inl kaspa ↦ rw kaspa (after_submit-Settled _ (set_nonce converted nonce) id _ a)
        | inr other ↦ rw other (keep_Settled w.handler a)
      ]

  credit_agrees :
      (diff : KaspaDiff)
      → Agree
          (λ s. record s {
            shares_found = add_one s.shares_found;
            shares_diff = add_float s.shares_diff diff.hash_value;
            last_share = env.now;
          })
          add_share
  credit_agrees diff blocks = inl ((λ s. refl), (λ s. refl))
  credit_agrees diff shares = inr ((λ s. refl), (λ s. refl))
  credit_agrees diff stales = inl ((λ s. refl), (λ s. refl))
  credit_agrees diff invalids = inl ((λ s. refl), (λ s. refl))

  record_share-Settled :
      (w : World DomainBlock) (p : ℕ) (info : SubmitInfo) (id : Value)
      (difficulty : Option KaspaDiff) (diff : KaspaDiff)
      → difficulty ≡ some diff
      → Accounts w.handler
      → p < length w.handler.store
      → Settled w.handler (record_share kaspad env w p info id difficulty).0.handler add_share
  unfolding record_share
  record_share-Settled w p info id none diff e a l = cc
  record_share-Settled w p info id (some diff) diff' e a l =
      let credit = λ (s : WorkStats). record s {
        shares_found = add_one s.shares_found;
        shares_diff = add_float s.shares_diff diff.hash_value;
        last_share = env.now;
      } in
      record {
        accounts =
            modify-Accounts w.handler p credit add_share (credit_agrees diff) (λ s. refl) l a;
        grows = omega (arith, length-modify credit p w.handler.store);
        added = refl;
      }

  submit_if_solved-Settled :
      (chain_type : Bytes) (w : World DomainBlock) (converted : DomainBlock) (nonce : ℕ)
      (id : Value)
      → Accounts w.handler
      → Settled w.handler
          (submit_if_solved kaspad env chain_type w converted nonce id).handler
          (block_adds chain_type w (set_nonce converted nonce))
  unfolding submit_if_solved
  submit_if_solved-Settled chain_type w converted nonce id a =
      let block = set_nonce converted nonce in
      elim (Bool-cases (leb (pow_value block) (target block))) [
        | inl solved ↦ rw solved (submit-Settled chain_type w converted nonce id a)
        | inr missed ↦ rw missed (keep_Settled w.handler a)
      ]

  handle_converted-Settled :
      (chain_type : Bytes) (w : World DomainBlock) (event : JsonRpcEvent) (info : SubmitInfo)
      (p : ℕ) (converted : DomainBlock) (diff : KaspaDiff)
      → w.worker.state.stratum_diff ≡ some diff
      → Accounts w.handler
      → p < length w.handler.store
      → Settled w.handler
          (handle_converted kaspad env chain_type w event info p (some converted)).0.handler
          (λ s. add_share (block_adds chain_type w (set_nonce converted info.nonce_val) s))
  unfolding handle_converted
  handle_converted-Settled chain_type w event info p converted diff hd a l =
      let first = submit_if_solved-Settled chain_type w converted info.nonce_val event.id a in
      let w' = submit_if_solved kaspad env chain_type w converted info.nonce_val event.id in
      let second =
        record_share-Settled w' p info event.id w.worker.state.stratum_diff diff hd first.accounts
          (omega (arith, l, first.grows)) in
      record {
        accounts = second.accounts;
        grows = omega (arith, first.grows, second.grows);
        added = second.added ∙ ap add_share first.added;
      }

  pub block_result-Settled :
      (chain_type : Bytes) (w : World DomainBlock) (event : JsonRpcEvent) (info : SubmitInfo)
      (converted : DomainBlock) (diff : KaspaDiff)
      → to_domain info.block ≡ some converted
      → w.worker.state.stratum_diff ≡ some diff
      → Accounts w.handler
      → Settled w.handler
          (handle_block kaspad env chain_type w event info).0.handler
          (λ s. add_share (block_adds chain_type w (set_nonce converted info.nonce_val) s))
  unfolding handle_block
  block_result-Settled chain_type w event info converted diff hb hd a =
      let e = get_create_stats-Entry w.handler w.metrics w.worker env.now a in
      let (sh, p, m) = get_create_stats w.handler w.metrics w.worker env.now in
      let rest =
        handle_converted-Settled chain_type (record w { handler = sh; metrics = m }) event info p
          converted diff hd e.accounts e.in_store in
      let added = λ (s : WorkStats).
        add_share (block_adds chain_type w (set_nonce converted info.nonce_val) s) in
      rw hb (record {
        accounts = rest.accounts;
        grows = omega (arith, e.grows, rest.grows);
        added = rest.added ∙ ap added e.overall_kept;
      })

  -- Once the nonce is read and the block converted, for a worker with a difficulty and where the
  -- accounts hold, every submission counts as one found share in the overall counters, whether its
  -- proof of work missed the target or the node refused the block; the block itself counts as found,
  -- stale or invalid by the node's answer, and only when it reached the target.
  pub handle_block-overall :
      (chain_type : Bytes) (w : World DomainBlock) (event : JsonRpcEvent) (info : SubmitInfo)
      (converted : DomainBlock) (diff : KaspaDiff)
      → to_domain info.block ≡ some converted
      → w.worker.state.stratum_diff ≡ some diff
      → Accounts w.handler
      → (handle_block kaspad env chain_type w event info).0.handler.overall
        ≡ add_share (block_adds chain_type w (set_nonce converted info.nonce_val) w.handler.overall)
  handle_block-overall chain_type w event info converted diff hb hd a =
      (block_result-Settled chain_type w event info converted diff hb hd a).added
