-- ===== src/Bridge/Announced.antt =====
-- Which workers are told of a new block in every state that the bridge reaches
-- (src/poolstratum/workers_listener.go).
use kaspa_stratum_bridge.Base.{
  ℕ, ◌+◌, ◌%◌, ◌^◌, ◌<◌, ◌≡◌, ◌==◌, refl, ap, ◌∙◌, arith, ◌&&◌, Bool-cases, inl, inr, List, ◌∷◌,
  ◌++◌, ltb, if◌then◌else◌, nat_eq,
}
use native.Mathlib.Decide.{dec_lt}
use kaspa_stratum_bridge.Base.GoMap.{insert, delete}
use kaspa_stratum_bridge.Text.{Bytes}
use kaspa_stratum_bridge.Gostratum.Worker.{WorkerContext}
use kaspa_stratum_bridge.Gostratum.Worker.State.{disconnect-marks}
use kaspa_stratum_bridge.Poolstratum.Listener.{on_connect, on_disconnect}
use kaspa_stratum_bridge.Poolstratum.Listener.Blocks.{check_balances}
use kaspa_stratum_bridge.Bridge.{
  Setting, State, set_at, start, accept, new_block_available, look_up, close, hang_up,
}
use kaspa_stratum_bridge.Bridge.Clients.{
  one_if, occurrences, entries, IsNumbered, occurrences-append, entries-insert, entries-delete,
  wants_jobs, occurrences-select_clients,
}
use kaspa_stratum_bridge.Bridge.Memory.{All-insert, All-delete}
use kaspa_stratum_bridge.Bridge.Sound.{IsSound, reached-IsSound}
use kaspa_stratum_bridge.Bridge.Reach.{
  Step, connection, reading, template, answering, telling, looking, closing, leaving, Reach, here,
  next,
}
use kaspa_stratum_bridge.Bridge.Registry.{
  All-at, IsRegistry, Registry, answered-Registry, is_registered, one_if_both, receive-Registry,
  set_at-other, start-Registry, tell-Registry, untouched-Registry, written-Registry,
}

module _ (setting : Setting) where
  -- A connection.
  accepted_counts :
      (s : State setting) (q : ℕ)
      → IsRegistry setting s
      → entries q (insert (s.allocated + 1) s.allocated s.listener.clients)
        ≡ one_if (ltb q (s.allocated + 1) && s.heard q == 0)
  accepted_counts s q r =
      let silent = r.blank s.allocated (omega arith) in
      ground (
        arith,
        silent.2,
        r.counts q,
        r.counts s.allocated,
        ap s.heard,
        entries-insert s.allocated q s.listener.clients r.numbered,
      )

  accepted_id :
      (p : ℕ) (ctx : WorkerContext) (f : ℕ → WorkerContext) (q : ℕ)
      → ctx.id ≡ p + 1
      → q < p + 1
      → ((r : ℕ) → r < p → (f r).id ≡ r + 1)
      → (set_at p ctx f q).id ≡ q + 1
  unfolding set_at
  accepted_id p ctx f q h below ids = elim (Bool-cases (q == p)) [
    | inl same ↦ rw same (ground (arith, h, same))
    | inr other ↦ rw other (ids q (ground (arith, other)))
  ]

  -- The number of the next worker.
  next_number :
      (s : State setting)
      → s.allocated + 1 < 2 ^ 32
      → IsRegistry setting s
      → (s.listener.client_counter + 1) % 2 ^ 32 ≡ s.allocated + 1
  next_number s few r = omega (arith, r.counter)

  accept-Registry :
      (now : ℕ) (remote : Bytes) (s : State setting)
      → Registry setting s
      → Registry setting (accept setting now remote s)
  unfolding accept on_connect
  accept-Registry now remote s registry few =
      let r = registry (omega arith) in
      let number = next_number s few r in
      record {
        blank = λ q above.
            rw (set_at-other s.allocated _ s.contexts q (omega arith)) (r.blank q (omega arith));
        counter = number;
        ids = λ q below. accepted_id s.allocated _ s.contexts q number below r.ids;
        numbered = All-insert IsNumbered _ s.allocated s.listener.clients number r.numbered;
        counts = λ q. rw number (accepted_counts s q r);
      }

  -- Only workers that were connected have disconnections to be received or goroutines to run.
  known :
      (s : State setting) (p : ℕ)
      → s.heard p < (s.contexts p).notifications
      → IsRegistry setting s
      → p < s.allocated
  known s p pending r = elim (dec_lt p s.allocated) [
    | yes below ↦ below
    | no above ↦ absurd (omega (arith, pending, (r.blank p (omega arith)).0))
  ]

  spawned :
      (s : State setting) (p : ℕ)
      → 0 < (s.contexts p).spawned_disconnects
      → IsRegistry setting s
      → p < s.allocated
  spawned s p pending r = elim (dec_lt p s.allocated) [
    | yes below ↦ below
    | no above ↦ absurd (omega (arith, pending, (r.blank p (omega arith)).1))
  ]

  told :
      (s : State setting) (p : ℕ) (before after : List ℕ)
      → s.notifying ≡ before ++ p ∷ after
      → IsSound setting s
      → p < s.allocated
  told s p before after e sound =
      All-at (λ q. q < s.allocated) before p after (rw⁻¹ e sound.notifying_allocated)

  -- A disconnection that is received.
  hang_up_counts :
      (s : State setting) (p q : ℕ)
      → p < s.allocated
      → IsRegistry setting s
      → entries q (delete (p + 1) s.listener.clients)
        ≡ one_if (ltb q s.allocated && set_at p (s.heard p + 1) s.heard q == 0)
  unfolding set_at
  hang_up_counts s p q connected r =
      ground (arith, r.counts q, entries-delete p q s.listener.clients r.numbered)

  hang_up-Registry :
      (p : ℕ) (s : State setting)
      → s.heard p < (s.contexts p).notifications
      → Registry setting s
      → Registry setting (hang_up setting p s)
  unfolding hang_up on_disconnect
  hang_up-Registry p s pending registry few =
      let r = registry few in
      let connected = known s p pending r in
      record {
        blank = λ q above. (
          (r.blank q above).0,
          (r.blank q above).1,
          ap (λ h. h) (set_at-other p (s.heard p + 1) s.heard q (omega arith))
              ∙ (r.blank q above).2,
        );
        counter = r.counter;
        ids = r.ids;
        numbered = All-delete IsNumbered _ s.listener.clients r.numbered;
        counts = λ q. rw (r.ids p connected) (hang_up_counts s p q connected r);
      }

  -- The worker of a step that waited for something is one that was connected.
  Step-Registry :
      {s t : State setting}
      → Step setting s t
      → IsSound setting s
      → Registry setting s
      → Registry setting t
  unfolding look_up new_block_available check_balances close
  Step-Registry (connection s now remote) sound h = accept-Registry now remote s h
  Step-Registry (reading s env p read cancelled connected) sound h =
      receive-Registry setting env p read cancelled s connected h
  Step-Registry (template s now) sound h = untouched-Registry setting s _ refl refl refl refl refl h
  Step-Registry (answering s answer asked before after e) sound h =
      answered-Registry setting answer _ (untouched-Registry setting s _ refl refl refl refl refl h)
  Step-Registry (telling s node env p before after e) sound h =
      tell-Registry setting node env p _ (told s p before after e sound)
        (untouched-Registry setting s _ refl refl refl refl refl h)
  Step-Registry (looking s now p before after e) sound h =
      untouched-Registry setting s _ refl refl refl refl refl h
  Step-Registry (closing s env p pending) sound h = λ few.
      written-Registry setting s _ p _ refl refl refl refl refl (spawned s p pending (h few))
        (ap (λ m. m.2) (disconnect-marks env (s.contexts p))) h few
  Step-Registry (leaving s p pending) sound h = hang_up-Registry p s pending h

  Reach-Registry :
      (size : ℕ) {s : State setting} → Reach setting (start setting size) s → Registry setting s
  Reach-Registry size here = start-Registry setting size
  Reach-Registry size (next {t} reach step) =
      Step-Registry step (reached-IsSound setting size t reach) (Reach-Registry size reach)

-- In every state that the bridge reaches from its start, before the 2^32nd connection, a new block starts
-- exactly one goroutine for each worker that was connected, whose disconnection was not yet received,
-- that is not disconnecting, and whose application has the name of the chain; and none for any other
-- worker. Whole calls take turns.
pub new_block_available-notifying :
    (setting : Setting) (size now p : ℕ) (s : State setting)
    → Reach setting (start setting size) s
    → s.allocated < 2 ^ 32
    → occurrences p (new_block_available setting now s).notifying
      ≡ occurrences p s.notifying
        + one_if (is_registered s p && wants_jobs setting.chain_type (s.contexts p))
unfolding new_block_available
new_block_available-notifying setting size now p s reach few =
    occurrences-append p s.notifying _
    ∙ ap (◌+◌ (occurrences p s.notifying)) (
        occurrences-select_clients setting.chain_type s.contexts p s.listener.clients
        ∙ ap (λ n. if wants_jobs setting.chain_type (s.contexts p) then n else 0)
            ((Reach-Registry setting size reach few).counts p)
        ∙ one_if_both (is_registered s p) (wants_jobs setting.chain_type (s.contexts p)))
