-- ===== src/Poolstratum/Shares/Interleaved/Alone.antt =====
-- A submission of src/poolstratum/share_handler.go that no other interrupts, step by step.
use kaspa_stratum_bridge.Base.{
  ℕ, zero, suc, ◌≡◌, refl, sym, ap, ◌∙◌, ◌&&◌, Bool-cases, inl, inr, List, [], ◌∷◌, Option, none,
  some, length, leb, if◌then◌else◌,
}
use kaspa_stratum_bridge.Base.GoMap.{lookup}
use kaspa_stratum_bridge.Text.{Bytes, bytes_beq, bytes_eq, codes, contains}
use kaspa_stratum_bridge.Model.{Value, JsonRpcEvent}
use kaspa_stratum_bridge.ChainNode.{chain_type_kaspa}
use kaspa_stratum_bridge.Prom.Difficulty.{KaspaDiff}
use kaspa_stratum_bridge.Prom.Metrics.{Metrics}
use kaspa_stratum_bridge.Gostratum.Worker.{Env, WorkerContext}
use kaspa_stratum_bridge.Poolstratum.Stats.{
  WorkStats, ShareHandler, modify, app_name_or_ver_of, find_by_device, find_or_create,
  get_create_stats,
}
use kaspa_stratum_bridge.Poolstratum.Stats.Totals.{Tally, blocks, stales, invalids}
use kaspa_stratum_bridge.Poolstratum.Shares.{
  Kaspad, World, SubmitInfo, count, after_submit, temp_kasp_submit, submit, submit_if_solved,
  record_share, handle_converted, handle_block, add_share,
}
use kaspa_stratum_bridge.Poolstratum.Shares.Interleaved.{
  Submission, Thread, looking, ended, add_of, credit, advance,
}

-- A handler without its counters for Prometheus.
abbrev placed : ShareHandler × ℕ × Metrics → ShareHandler × ℕ
placed r = (r.0, r.1)

found-metrics :
    (sh : ShareHandler) (m : Metrics) (sc : WorkerContext) (now : ℕ)
    (by_device by_remote : Option ℕ)
    → placed (find_or_create sh m sc now by_device by_remote)
      ≡ placed (find_or_create sh [] sc now by_device by_remote)
unfolding find_or_create
found-metrics sh m sc now (some p) r = refl
found-metrics sh m sc now none (some p) = refl
found-metrics sh m sc now none none = refl

-- A lookup does not depend on the counters for Prometheus.
looked-metrics :
    (sh : ShareHandler) (m : Metrics) (sc : WorkerContext) (now : ℕ)
    → placed (get_create_stats sh m sc now) ≡ placed (get_create_stats sh [] sc now)
unfolding get_create_stats
looked-metrics sh m sc now =
    ap
      (λ r. (
        record r.0 {
          store = modify r.1 (λ s. record s { app_name_or_ver = app_name_or_ver_of sc }) r.0.store;
        },
        r.1,
      ))
      (found-metrics sh m sc now (find_by_device sh sc) (lookup sc.remote_addr sh.stats))

modify-modify :
    (f g : WorkStats → WorkStats) (p : ℕ) (store : List WorkStats)
    → modify p g (modify p f store) ≡ modify p (λ s. g (f s)) store
unfolding modify
modify-modify f g p [] = refl
modify-modify f g zero (s ∷ store) = refl
modify-modify f g (suc p) (s ∷ store) = ap (◌∷◌ s) (modify-modify f g p store)

module _ (add_float : ℕ → ℕ → ℕ) where
  -- A number of steps of one submission.
  unfoldable pub run : ℕ → ShareHandler × Thread → ShareHandler × Thread
  run zero r = r
  run (suc n) r = run n (advance add_float r.0 r.1)

  -- The counters for a block.
  counted_block : ShareHandler → Submission → Option Tally → ShareHandler
  counted_block sh c none = sh
  counted_block sh c (some t) =
      let (sh', q, m) = get_create_stats sh [] c.worker c.now in
      record sh' { store = modify q (add_of t) sh'.store; overall = add_of t sh'.overall }

  -- The counters for a share.
  counted_share : ShareHandler → Submission → ℕ → ShareHandler
  counted_share sh c p = record sh {
    store = modify p (credit add_float c) (modify p add_share sh.store);
    overall = add_share sh.overall;
  }

  abbrev in_full : ShareHandler → Submission → Option Tally → ShareHandler
  in_full sh c o =
      let (sh', p, m) = get_create_stats sh [] c.worker c.now in
      counted_share (counted_block sh' c o) c p

  run-looking :
      (sh : ShareHandler) (worker : WorkerContext) (now hash_value : ℕ) (o : Option Tally)
      → let c : Submission = record {
        worker = worker;
        now = now;
        hash_value = hash_value;
        outcome = o;
      } in
        run 7 (sh, looking c) ≡ (in_full sh c o, ended c)
  unfolding run advance counted_block counted_share
  run-looking sh worker now hash_value none = refl
  run-looking sh worker now hash_value (some t) = refl

module _ (kaspad : Kaspad) (env : Env) where
  open kaspad use {DomainBlock, to_domain, set_nonce, pow_value, target, submit_block, add_float}

  -- The counter of the node's answer.
  abbrev pub answer_tally : Option Bytes → Tally
  answer_tally none = blocks
  answer_tally (some message) =
      if contains message (codes "ErrDuplicateBlock") then stales else invalids

  -- The counter to which a block goes: that of the node's answer, if it reached the target and the chain
  -- is kaspa.
  unfoldable pub outcome_of : Bytes → World DomainBlock → DomainBlock → Option Tally
  outcome_of chain_type w block =
      if leb (pow_value block) (target block) && bytes_beq chain_type chain_type_kaspa
      then some (answer_tally (submit_block (length w.submitted) block))
      else none

  -- The submission of a worker's share.
  abbrev pub call_for : Bytes → World DomainBlock → DomainBlock → KaspaDiff → Submission
  call_for chain_type w block diff = record {
    worker = w.worker;
    now = env.now;
    hash_value = diff.hash_value;
    outcome = outcome_of chain_type w block;
  }

  count-block :
      (t : Tally) (w : World DomainBlock) (c : Submission)
      → c.worker ≡ w.worker
      → c.now ≡ env.now
      → (count kaspad env (add_of t) w).handler ≡ counted_block add_float w.handler c (some t)
  unfolding count counted_block
  count-block t w c same time =
      rw (same, time)
        (ap
          (λ r. record r.0 {
            store = modify r.1 (add_of t) r.0.store;
            overall = add_of t r.0.overall;
          })
          (looked-metrics w.handler w.metrics w.worker env.now))

  answered-block :
      (w : World DomainBlock) (block : DomainBlock) (id : Value) (answer : Option Bytes)
      (c : Submission)
      → c.worker ≡ w.worker
      → c.now ≡ env.now
      → (after_submit kaspad env w block id answer).handler
        ≡ counted_block add_float w.handler c (some (answer_tally answer))
  unfolding after_submit
  answered-block w block id none c same time = count-block blocks w c same time
  answered-block w block id (some message) c same time =
      elim (Bool-cases (contains message (codes "ErrDuplicateBlock"))) [
        | inl duplicate ↦ rw duplicate (count-block stales w c same time)
        | inr other ↦ rw other (count-block invalids w c same time)
      ]

  submitted-block :
      (chain_type : Bytes) (w : World DomainBlock) (converted : DomainBlock) (nonce : ℕ)
      (id : Value) (c : Submission)
      → c.worker ≡ w.worker
      → c.now ≡ env.now
      → (submit_if_solved kaspad env chain_type w converted nonce id).handler
        ≡ counted_block add_float w.handler c (outcome_of chain_type w (set_nonce converted nonce))
  unfolding submit_if_solved submit temp_kasp_submit outcome_of
  submitted-block chain_type w converted nonce id c same time =
      let block = set_nonce converted nonce in
      elim (Bool-cases (leb (pow_value block) (target block))) [
        | inl solved ↦ elim (Bool-cases (bytes_beq chain_type chain_type_kaspa)) [
          | inl kaspa ↦ rw (solved, kaspa) (answered-block _ block id _ c same time)
          | inr other ↦ rw (solved, other) (unfold counted_block in refl)
        ]
        | inr missed ↦ rw missed (unfold counted_block in refl)
      ]

  recorded-share :
      (w : World DomainBlock) (p : ℕ) (info : SubmitInfo) (id : Value) (diff : KaspaDiff)
      (c : Submission)
      → c.now ≡ env.now
      → c.hash_value ≡ diff.hash_value
      → (record_share kaspad env w p info id (some diff)).0.handler
        ≡ counted_share add_float w.handler c p
  unfolding record_share counted_share
  recorded-share w p info id diff c time value =
      rw (time, value)
        (ap (λ store. record w.handler { store = store; overall = add_share w.handler.overall })
          (sym (modify-modify add_share _ p w.handler.store)))

  -- With a convertible block and a difficulty, the steps of a submission that no other interrupts leave
  -- the handler that the whole call of `HandleSubmit` leaves from its nonce on, and the submission has
  -- ended after seven of them, or fewer.
  pub run-handle_block :
      (chain_type : Bytes) (w : World DomainBlock) (event : JsonRpcEvent) (info : SubmitInfo)
      (converted : DomainBlock) (diff : KaspaDiff)
      → to_domain info.block ≡ some converted
      → w.worker.state.stratum_diff ≡ some diff
      → let c = call_for chain_type w (set_nonce converted info.nonce_val) diff in
        run add_float 7 (w.handler, looking c)
        ≡ ((handle_block kaspad env chain_type w event info).0.handler, ended c)
  unfolding handle_block handle_converted get_create_stats outcome_of
  run-handle_block chain_type w event info converted diff hb hd =
      let c = call_for chain_type w (set_nonce converted info.nonce_val) diff in
      let r = get_create_stats w.handler w.metrics w.worker env.now in
      let w1 = record w { handler = r.0; metrics = r.2 } in
      let sent = submit_if_solved kaspad env chain_type w1 converted info.nonce_val event.id in
      let whole : (handle_block kaspad env chain_type w event info).0.handler
          ≡ (record_share kaspad env sent r.1 info event.id (some diff)).0.handler =
        rw (hb, hd) refl in
      let block = set_nonce converted info.nonce_val in
      let share = recorded-share sent r.1 info event.id diff c refl refl in
      let counted = submitted-block chain_type w1 converted info.nonce_val event.id c refl refl in
      let looked = looked-metrics w.handler w.metrics w.worker env.now in
      run-looking add_float w.handler w.worker env.now diff.hash_value
        (outcome_of chain_type w block)
      ∙ ap (λ h. (h, ended c))
          (ap (λ x. counted_share add_float (counted_block add_float x.0 c c.outcome) c x.1)
              (sym looked)
            ∙ sym (whole ∙ share ∙ ap (λ h. counted_share add_float h c r.1) counted))
