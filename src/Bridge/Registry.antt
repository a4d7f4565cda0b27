-- ===== src/Bridge/Registry.antt =====
-- Which workers of the bridge stand in the map of clients (src/poolstratum/workers_listener.go), and
-- which are told of a new block.
use kaspa_stratum_bridge.Base.{
  ℕ, ◌+◌, ◌^◌, ◌≤◌, ◌<◌, ◌≡◌, ◌==◌, ==_iff, refl, ap, sym, ◌∙◌, arith, Bool, true, false, ◌&&◌,
  Bool-cases, inl, inr, List, [], ◌∷◌, ◌++◌, All, ltb, if◌then◌else◌, Option, none, some, nat_eq,
}
use kaspa_stratum_bridge.Text.{Bytes}
use kaspa_stratum_bridge.Gostratum.Worker.{Env, WorkerContext}
use kaspa_stratum_bridge.Gostratum.Worker.State.{disconnect-marks}
use kaspa_stratum_bridge.Gostratum.Handle.State.{handle_subscribe-marks, handle_authorize-marks}
use kaspa_stratum_bridge.Gostratum.Listener.{Read, new_client}
use kaspa_stratum_bridge.Gostratum.Listener.Keeping.{Keeping, client_round_kept}
use kaspa_stratum_bridge.ChainNode.Notify.{Node}
use kaspa_stratum_bridge.Poolstratum.Shares.WorkerState.{handle_submit-marks}
use kaspa_stratum_bridge.Poolstratum.Listener.{new_workers_listener}
use kaspa_stratum_bridge.Poolstratum.Listener.Blocks.{check_balances}
use kaspa_stratum_bridge.Poolstratum.Listener.Blocks.Extranonce.{notify_worker-id}
use kaspa_stratum_bridge.Bridge.{
  Pool, Setting, State, world_of, set_at, start, new_block_available, answer_balances, tell, close,
  subscribe, authorize, submit_share, calls, receive,
}
use kaspa_stratum_bridge.Bridge.Clients.{one_if, entries, IsNumbered}
use kaspa_stratum_bridge.Bridge.Handlers.{handlers_kept}

-- A worker that was connected and whose disconnection was not yet received.
abbrev pub is_registered : {DomainBlock : Type 0} → Pool DomainBlock → ℕ → Bool
is_registered s p = ltb p s.allocated && s.heard p == 0

pub one_if_both : (a b : Bool) → (if b then one_if a else 0) ≡ one_if (a && b)
one_if_both true true = refl
one_if_both true false = refl
one_if_both false true = refl
one_if_both false false = refl

-- What no step has touched yet.
abbrev IsBlank : {DomainBlock : Type 0} → Pool DomainBlock → ℕ → Type 0
IsBlank s p =
    ((s.contexts p).notifications ≡ 0) × ((s.contexts p).spawned_disconnects ≡ 0) × (s.heard p ≡ 0)

pub record IsRegistry (setting : Setting) (s : State setting) : Type 0 where
  pub blank : (p : ℕ) → s.allocated ≤ p → IsBlank s p
  pub counter : s.listener.client_counter ≡ s.allocated
  pub ids : (p : ℕ) → p < s.allocated → (s.contexts p).id ≡ p + 1
  pub numbered : All IsNumbered s.listener.clients
  pub counts : (p : ℕ) → entries p s.listener.clients ≡ one_if (is_registered s p)

pub All-at : (P : ℕ → Type 0) (xs : List ℕ) (y : ℕ) (ys : List ℕ) → All P (xs ++ y ∷ ys) → P y
All-at P [] y ys (h, t) = h
All-at P (x ∷ xs) y ys (h, t) = All-at P xs y ys t

-- A write to memory at another place.
pub set_at-other : {A : Type 0} (p : ℕ) (x : A) (f : ℕ → A) (q : ℕ) → p < q → set_at p x f q ≡ f q
unfolding set_at
set_at-other p x f q h = elim (Bool-cases (q == p)) [
  | inl same ↦ absurd (ground (arith, same))
  | inr other ↦ rw other refl
]

set_at-id :
    (p : ℕ) (ctx : WorkerContext) (f : ℕ → WorkerContext) (q n : ℕ)
    → ctx.id ≡ (f p).id
    → (f q).id ≡ n
    → (set_at p ctx f q).id ≡ n
unfolding set_at
set_at-id p ctx f q n h k = elim (Bool-cases (q == p)) [
  | inl same ↦ rw same (h ∙ ap (λ r. (f r).id) (sym ((==_iff q p).0 same)) ∙ k)
  | inr other ↦ rw other k
]

module _ (setting : Setting) where
  -- As long as the counter of the workers, an int32, has not come round.
  abbrev pub Registry : State setting → Type 0
  Registry s = s.allocated < 2 ^ 32 → IsRegistry setting s

  pub start-Registry : (size : ℕ) → Registry (start setting size)
  unfolding start new_workers_listener new_client
  start-Registry size few = record {
    blank = λ p h. (refl, refl, refl);
    counter = refl;
    ids = λ p h. absurd (omega arith);
    numbered = tt;
    counts = λ p. ground arith;
  }

  -- Writing the context of a worker that was connected, with its number.
  pub written-Registry :
      (s t : State setting) (p : ℕ) (ctx : WorkerContext)
      → t.contexts ≡ set_at p ctx s.contexts
      → t.listener.clients ≡ s.listener.clients
      → t.listener.client_counter ≡ s.listener.client_counter
      → t.allocated ≡ s.allocated
      → t.heard ≡ s.heard
      → p < s.allocated
      → ctx.id ≡ (s.contexts p).id
      → Registry s
      → Registry t
  written-Registry s t p ctx memory clients counter allocated heard connected h registry few =
      let r = registry (omega (arith, few, allocated)) in
      record {
        blank = λ q above.
            let unwritten = set_at-other p ctx s.contexts q (omega (arith, above, allocated)) in
            rw (memory, unwritten, heard) (r.blank q (omega (arith, above, allocated)));
        counter = counter ∙ r.counter ∙ sym allocated;
        ids = λ q below.
            rw memory
              (set_at-id p ctx s.contexts q (q + 1) h (r.ids q (omega (arith, below, allocated))));
        numbered = rw clients r.numbered;
        counts = λ q. rw (clients, allocated, heard) (r.counts q);
      }

  -- A step that changes none of the parts at stake.
  pub untouched-Registry :
      (s t : State setting)
      → t.contexts ≡ s.contexts
      → t.listener.clients ≡ s.listener.clients
      → t.listener.client_counter ≡ s.listener.client_counter
      → t.allocated ≡ s.allocated
      → t.heard ≡ s.heard
      → Registry s
      → Registry t
  untouched-Registry s t memory clients counter allocated heard registry few =
      let r = registry (omega (arith, few, allocated)) in
      record {
        blank = λ q above. rw (memory, heard) (r.blank q (omega (arith, above, allocated)));
        counter = counter ∙ r.counter ∙ sym allocated;
        ids = λ q below. rw memory (r.ids q (omega (arith, below, allocated)));
        numbered = rw clients r.numbered;
        counts = λ q. rw (clients, allocated, heard) (r.counts q);
      }

  -- The registry, with a worker that was connected.
  abbrev WithWorker : ℕ → State setting → Type 0
  WithWorker p s = (p < s.allocated) × Registry s

  calls-Keeping : (env : Env) (p : ℕ) → Keeping (calls setting env) p (WithWorker p)
  unfolding subscribe authorize submit_share new_block_available check_balances close
  calls-Keeping env p =
      handlers_kept setting p env (WithWorker p)
        (λ s event h. (
          h.0,
          written-Registry s _ p _ refl refl refl refl refl h.0
              (ap (λ m. m.2) (handle_subscribe-marks env (s.contexts p) event)) h.1,
        ))
        (λ s event h. (
          h.0,
          written-Registry s _ p _ refl refl refl refl refl h.0
              (ap (λ m. m.2)
                (handle_authorize-marks env setting.decode_address (s.contexts p) event))
              h.1,
        ))
        (λ s event h. (
          h.0,
          written-Registry s _ p _ refl refl refl refl refl h.0
              (ap (λ m. m.2)
                (handle_submit-marks setting.kaspad env setting.chain_type (world_of setting s p)
                  event))
              h.1,
        ))
        (λ s h. (h.0, untouched-Registry s _ refl refl refl refl refl h.1))
        (λ s h. (
          h.0,
          written-Registry s _ p _ refl refl refl refl refl h.0
              (ap (λ m. m.2) (disconnect-marks env (s.contexts p))) h.1,
        ))

  pub receive-Registry :
      (env : Env) (p : ℕ) (read : Read) (cancelled : Bool) (s : State setting)
      → p < s.allocated
      → Registry s
      → Registry (receive setting env p read cancelled s).0
  unfolding receive
  receive-Registry env p read cancelled s connected h =
      (client_round_kept (calls setting env) p (WithWorker p) (calls-Keeping env p) s read cancelled
        (connected, h)).1

  pub tell-Registry :
      (node : Node) (env : Env) (p : ℕ) (s : State setting)
      → p < s.allocated
      → Registry s
      → Registry (tell setting node env p s)
  unfolding tell
  tell-Registry node env p s connected h =
      written-Registry s _ p _ refl refl refl refl refl connected
        (notify_worker-id setting.blake2b setting.floats node env setting.min_share_diff
          (s.contexts p) s.metrics)
        h

  pub answered-Registry :
      (answer : Option (List (Bytes × ℕ))) (s : State setting)
      → Registry s
      → Registry (answer_balances setting answer s)
  unfolding answer_balances
  answered-Registry none s h = h
  answered-Registry (some entries) s h = untouched-Registry s _ refl refl refl refl refl h
