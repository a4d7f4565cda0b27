-- ===== src/Bridge/Extranonces.antt =====
-- The extranonces of the workers of the bridge (src/poolstratum/workers_listener.go) in every state that
-- it reaches.
use kaspa_stratum_bridge.Base.{
  ℕ, zero, suc, ◌+◌, ◌*◌, ◌%◌, ◌^◌, ◌≤◌, ◌<◌, ◌≡◌, ◌≢◌, ◌==◌, ==_iff, refl, ap, sym, ◌∙◌, arith,
  Bool, Bool-cases, inl, inr, List, length, Option, none, some,
}
use kaspa_stratum_bridge.Text.{Bytes}
use kaspa_stratum_bridge.Text.Hex.{hex_fixed}
use kaspa_stratum_bridge.Text.Digits.{parse_uint}
use kaspa_stratum_bridge.Model.{JsonRpcEvent}
use kaspa_stratum_bridge.Gostratum.Worker.{Env, WorkerContext}
use kaspa_stratum_bridge.Gostratum.Worker.State.{disconnect-marks}
use kaspa_stratum_bridge.Gostratum.Handle.State.{handle_subscribe-marks, handle_authorize-marks}
use kaspa_stratum_bridge.Gostratum.Listener.{Read}
use kaspa_stratum_bridge.Gostratum.Listener.Keeping.{Keeping, client_round_kept}
use kaspa_stratum_bridge.ChainNode.Notify.{Node}
use kaspa_stratum_bridge.Poolstratum.Nonce.{add_extranonce}
use kaspa_stratum_bridge.Poolstratum.Nonce.Space.{nonces_differ}
use kaspa_stratum_bridge.Text.Digits.Laws.{IsHex}
use kaspa_stratum_bridge.Poolstratum.Shares.WorkerState.{handle_submit-marks}
use kaspa_stratum_bridge.Poolstratum.Listener.{WorkersListener, new_workers_listener, on_disconnect}
use kaspa_stratum_bridge.Poolstratum.Listener.Extranonces.{
  space, IsListener, new_workers_listener-IsListener, on_connect-Connected,
  on_disconnect-IsListener, mod_space-lt, space_digits, apart_numbers,
}
use kaspa_stratum_bridge.Poolstratum.Listener.Blocks.{select_clients, check_balances}
use kaspa_stratum_bridge.Poolstratum.Listener.Blocks.Extranonce.{notify_worker-extranonce}
use kaspa_stratum_bridge.Bridge.{
  Setting, State, world_of, set_at, start, accept, new_block_available, answer_balances, tell,
  look_up, close, hang_up, subscribe, authorize, submit_share, calls, receive,
}
use kaspa_stratum_bridge.Bridge.Handlers.{handlers_kept}
use kaspa_stratum_bridge.Bridge.Reach.{
  Step, connection, reading, template, answering, telling, looking, closing, leaving, Reach, here,
  next,
}

-- The extranonce of the worker that was connected after a number of others.
abbrev pub extranonce_of : ℕ → ℕ → Bytes
extranonce_of size p = hex_fixed (size * 2) (p % space size)

record IsAssigned (setting : Setting) (size : ℕ) (s : State setting) : Type 0 where
  listener : IsListener size s.listener
  next_one : s.listener.next_extranonce ≡ s.allocated % space size
  texts : (p : ℕ) → p < s.allocated → (s.contexts p).extranonce ≡ extranonce_of size p

zero_mod : (size : ℕ) → 0 < size → size ≤ 3 → 0 ≡ 0 % space size
zero_mod zero h l = absurd (omega arith)
zero_mod (suc zero) h l = omega arith
zero_mod (suc (suc zero)) h l = omega arith
zero_mod (suc (suc (suc zero))) h l = omega arith
zero_mod (suc (suc (suc (suc n)))) h l = absurd (omega arith)

succ_mod :
    (size n : ℕ) → 0 < size → size ≤ 3 → (n % space size + 1) % space size ≡ (n + 1) % space size
succ_mod zero n h l = absurd (omega arith)
succ_mod (suc zero) n h l = omega arith
succ_mod (suc (suc zero)) n h l = omega arith
succ_mod (suc (suc (suc zero))) n h l = omega arith
succ_mod (suc (suc (suc (suc size)))) n h l = absurd (omega arith)

-- A write to memory that keeps the extranonce.
same_extranonce :
    (p : ℕ) (ctx : WorkerContext) (f : ℕ → WorkerContext) (q : ℕ)
    → ctx.extranonce ≡ (f p).extranonce
    → (set_at p ctx f q).extranonce ≡ (f q).extranonce
unfolding set_at
same_extranonce p ctx f q h = elim (Bool-cases (q == p)) [
  | inl same ↦ rw same (h ∙ ap (λ r. (f r).extranonce) (sym ((==_iff q p).0 same)))
  | inr other ↦ rw other refl
]

module _ (setting : Setting) (size : ℕ) (positive : 0 < size) (small : size ≤ 3) where
  abbrev Assigned : State setting → Type 0
  Assigned = IsAssigned setting size

  start-IsAssigned : Assigned (start setting size)
  unfolding start
  start-IsAssigned = record {
    listener = new_workers_listener-IsListener size positive small;
    next_one = unfold new_workers_listener in (zero_mod size positive small);
    texts = λ p h. absurd (omega arith);
  }

  -- Writing a worker's context with its extranonce.
  written-IsAssigned :
      (s t : State setting) (p : ℕ) (ctx : WorkerContext)
      → t.contexts ≡ set_at p ctx s.contexts
      → t.listener ≡ s.listener
      → t.allocated ≡ s.allocated
      → ctx.extranonce ≡ (s.contexts p).extranonce
      → Assigned s
      → Assigned t
  written-IsAssigned s t p ctx memory listener allocated h assigned = record {
    listener = rw listener assigned.listener;
    next_one = rw (listener, allocated) assigned.next_one;
    texts = λ q below.
        rw memory (
          same_extranonce p ctx s.contexts q h
          ∙ assigned.texts q (omega (arith, below, allocated)));
  }

  close-IsAssigned :
      (env : Env) (s : State setting) (p : ℕ) → Assigned s → Assigned (close setting env s p)
  unfolding close
  close-IsAssigned env s p =
      written-IsAssigned s _ p _ refl refl refl
        (ap (λ m. m.1) (disconnect-marks env (s.contexts p)))

  subscribe-IsAssigned :
      (env : Env) (s : State setting) (p : ℕ) (event : JsonRpcEvent)
      → Assigned s
      → Assigned (subscribe setting env s p event).0
  unfolding subscribe
  subscribe-IsAssigned env s p event =
      written-IsAssigned s _ p _ refl refl refl
        (ap (λ m. m.1) (handle_subscribe-marks env (s.contexts p) event))

  authorize-IsAssigned :
      (env : Env) (s : State setting) (p : ℕ) (event : JsonRpcEvent)
      → Assigned s
      → Assigned (authorize setting env s p event).0
  unfolding authorize
  authorize-IsAssigned env s p event =
      written-IsAssigned s _ p _ refl refl refl
        (ap (λ m. m.1) (handle_authorize-marks env setting.decode_address (s.contexts p) event))

  submit_share-IsAssigned :
      (env : Env) (s : State setting) (p : ℕ) (event : JsonRpcEvent)
      → Assigned s
      → Assigned (submit_share setting env s p event).0
  unfolding submit_share
  submit_share-IsAssigned env s p event = written-IsAssigned s _ p _ refl refl refl (
      ap (λ m. m.1)
        (handle_submit-marks setting.kaspad env setting.chain_type (world_of setting s p) event))

  tell-IsAssigned :
      (node : Node) (env : Env) (p : ℕ) (s : State setting)
      → Assigned s
      → Assigned (tell setting node env p s)
  unfolding tell
  tell-IsAssigned node env p s = written-IsAssigned s _ p _ refl refl refl (
      notify_worker-extranonce setting.blake2b setting.floats node env setting.min_share_diff
        (s.contexts p) s.metrics)

  -- A step that changes none of the parts at stake.
  untouched-IsAssigned :
      (s t : State setting)
      → t.contexts ≡ s.contexts
      → t.allocated ≡ s.allocated
      → t.listener.next_extranonce ≡ s.listener.next_extranonce
      → IsListener size t.listener
      → Assigned s
      → Assigned t
  untouched-IsAssigned s t memory allocated number listener assigned = record {
    listener = listener;
    next_one = rw (number, allocated) assigned.next_one;
    texts = λ q below. rw memory (assigned.texts q (omega (arith, below, allocated)));
  }

  checked-IsListener :
      (c : WorkersListener) (now : ℕ) (addresses : List Bytes)
      → IsListener size c
      → IsListener size (check_balances now addresses c).0
  unfolding check_balances
  checked-IsListener c now addresses i = record {
    size_kept = i.size_kept;
    max_kept = i.max_kept;
    in_space = i.in_space;
  }

  new_block_available-IsAssigned :
      (now : ℕ) (s : State setting) → Assigned s → Assigned (new_block_available setting now s)
  unfolding new_block_available check_balances
  new_block_available-IsAssigned now s h =
      untouched-IsAssigned s _ refl refl refl
        (checked-IsListener s.listener now
          (select_clients setting.chain_type s.contexts s.listener.clients).1 h.listener)
        h

  answered-IsAssigned :
      (answer : Option (List (Bytes × ℕ))) (s : State setting)
      → Assigned s
      → Assigned (answer_balances setting answer s)
  unfolding answer_balances
  answered-IsAssigned none s h = h
  answered-IsAssigned (some entries) s h = untouched-IsAssigned s _ refl refl refl h.listener h

  calls-Keeping : (env : Env) (p : ℕ) → Keeping (calls setting env) p Assigned
  calls-Keeping env p =
      handlers_kept setting p env Assigned (λ s event h. subscribe-IsAssigned env s p event h)
        (λ s event h. authorize-IsAssigned env s p event h)
        (λ s event h. submit_share-IsAssigned env s p event h)
        (λ s h. new_block_available-IsAssigned env.now s h) (λ s h. close-IsAssigned env s p h)

  receive-IsAssigned :
      (env : Env) (p : ℕ) (read : Read) (cancelled : Bool) (s : State setting)
      → Assigned s
      → Assigned (receive setting env p read cancelled s).0
  unfolding receive
  receive-IsAssigned env p read cancelled s assigned =
      client_round_kept (calls setting env) p Assigned (calls-Keeping env p) s read cancelled
        assigned

  -- The memory after a connection.
  accepted_text :
      (s : State setting) (ctx : WorkerContext) (q : ℕ)
      → ctx.extranonce ≡ extranonce_of size s.allocated
      → q < s.allocated + 1
      → Assigned s
      → (set_at s.allocated ctx s.contexts q).extranonce ≡ extranonce_of size q
  unfolding set_at
  accepted_text s ctx q h below assigned = elim (Bool-cases (q == s.allocated)) [
    | inl same ↦ rw same (h ∙ ap (extranonce_of size) (sym ((==_iff q s.allocated).0 same)))
    | inr other ↦ rw other (assigned.texts q (ground (arith, below, other)))
  ]

  accept-IsAssigned :
      (now : ℕ) (remote : Bytes) (s : State setting)
      → Assigned s
      → Assigned (accept setting now remote s)
  unfolding accept
  accept-IsAssigned now remote s assigned =
      let c = on_connect-Connected size s.listener s.allocated _ positive small assigned.listener in
      record {
        listener = c.listener;
        next_one =
            c.next_number_left
            ∙ ap (λ n. (n + 1) % space size) assigned.next_one
            ∙ succ_mod size s.allocated positive small;
        texts = λ q below.
            accepted_text s _ q (c.extranonce_text ∙ ap (hex_fixed (size * 2)) assigned.next_one)
              below assigned;
      }

  waiting-IsListener :
      (c : WorkersListener) (workers : List ℕ)
      → IsListener size c
      → IsListener size (record c { waiting = workers })
  waiting-IsListener c workers i = record {
    size_kept = i.size_kept;
    max_kept = i.max_kept;
    in_space = i.in_space;
  }

  Step-IsAssigned : {s t : State setting} → Step setting s t → Assigned s → Assigned t
  unfolding look_up hang_up on_disconnect
  Step-IsAssigned (connection s now remote) h = accept-IsAssigned now remote s h
  Step-IsAssigned (reading s env p read cancelled allocated) h =
      receive-IsAssigned env p read cancelled s h
  Step-IsAssigned (template s now) h = new_block_available-IsAssigned now s h
  Step-IsAssigned (answering s answer asked before after e) h =
      answered-IsAssigned answer _ (untouched-IsAssigned s _ refl refl refl h.listener h)
  Step-IsAssigned (telling s node env p before after e) h =
      tell-IsAssigned node env p _ (untouched-IsAssigned s _ refl refl refl h.listener h)
  Step-IsAssigned (looking s now p before after e) h =
      untouched-IsAssigned s _ refl refl refl (waiting-IsListener s.listener _ h.listener) h
  Step-IsAssigned (closing s env p pending) h = close-IsAssigned env s p h
  Step-IsAssigned (leaving s p pending) h =
      untouched-IsAssigned s _ refl refl refl
        (on_disconnect-IsListener size s.listener s.metrics (s.contexts p) h.listener) h

  Reach-IsAssigned : {s t : State setting} → Reach setting s t → Assigned s → Assigned t
  Reach-IsAssigned here h = h
  Reach-IsAssigned (next reach step) h = Step-IsAssigned step (Reach-IsAssigned reach h)

  reached-IsAssigned : {s : State setting} → Reach setting (start setting size) s → Assigned s
  reached-IsAssigned reach = Reach-IsAssigned reach start-IsAssigned

-- In every state that the bridge reaches from its start, two workers that were connected less than a
-- round of the space of extranonces apart never search the same nonce: whatever hexadecimal digits
-- they send that fit behind their extranonces, the nonces that are parsed differ. The size of the
-- extranonces is one that the server admits. Whole calls take turns.
pub nonces_reached_differ :
    (setting : Setting) (size p q : ℕ) (s : State setting) (digits_p digits_q : Bytes)
    → 0 < size
    → size ≤ 3
    → Reach setting (start setting size) s
    → p < q
    → q < p + space size
    → q < s.allocated
    → IsHex digits_p
    → IsHex digits_q
    → size * 2 + length digits_p ≤ 16
    → size * 2 + length digits_q ≤ 16
    → parse_uint 16 (add_extranonce (s.contexts p).extranonce digits_p)
      ≢ parse_uint 16 (add_extranonce (s.contexts q).extranonce digits_q)
nonces_reached_differ setting zero p q s digits_p digits_q positive small reach apart near connected
      hex_p hex_q fits_p fits_q =
    absurd (omega arith)
nonces_reached_differ setting (suc n) p q s digits_p digits_q positive small reach apart near
      connected hex_p hex_q fits_p fits_q =
    let size = suc n in
    let assigned = reached-IsAssigned setting size positive small reach in
    let even : size * 2 ≡ suc (n * 2 + 1) = omega arith in
    let digits : space size ≡ 16 ^ suc (n * 2 + 1) = space_digits size small ∙ ap (◌^◌ 16) even in
    rw (assigned.texts p (omega arith), assigned.texts q connected, even)
      (nonces_differ (n * 2 + 1) (p % space size) (q % space size) digits_p digits_q
        (rw⁻¹ digits (mod_space-lt size p positive small))
        (rw⁻¹ digits (mod_space-lt size q positive small)) hex_p hex_q (omega arith) (omega arith)
        (apart_numbers size p q positive small apart near))
