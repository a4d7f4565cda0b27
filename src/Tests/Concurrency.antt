-- ===== src/Tests/Concurrency.antt =====
-- The theorems on the interleaved counters of src/poolstratum/share_handler.go and on the shutdown of
-- src/gostratum/stratum_listener.go at concrete runs.
use kaspa_stratum_bridge.Base.{
  ℕ, ◌+◌, ◌%◌, ◌^◌, ◌≤◌, ◌≡◌, refl, List, [], ◌∷◌, ◌++◌, none, some, true, false,
}
use kaspa_stratum_bridge.Base.GoMap.{lookup, insert}
use kaspa_stratum_bridge.Text.{codes, bytes_beq}
use kaspa_stratum_bridge.Gostratum.Shutdown
use kaspa_stratum_bridge.Gostratum.Shutdown.{Server, new_listener, done, more}
use kaspa_stratum_bridge.Gostratum.Shutdown.Ending.{effort, IsStuck, listen_returns}
use kaspa_stratum_bridge.Gostratum.Shutdown.Waiting.{listen_waits, shutdown_unheard}
use kaspa_stratum_bridge.Poolstratum.Stats.{
  new_share_handler, get_create_stats, find_by_device, find_or_create, create_entry, modify,
}
use kaspa_stratum_bridge.Poolstratum.Stats.Totals.{Tally, stales, tally, Accounts}
use kaspa_stratum_bridge.Poolstratum.Stats.Shown.{shown}
use kaspa_stratum_bridge.Poolstratum.Shares.{handle_block}
use kaspa_stratum_bridge.Poolstratum.Shares.Interleaved
use kaspa_stratum_bridge.Poolstratum.Shares.Interleaved.{
  Submission, Thread, looking, advance, Shared, alone_with, begin, go_on,
}
use kaspa_stratum_bridge.Poolstratum.Shares.Interleaved.Settling.{asked_by, interleaved_settled}
use kaspa_stratum_bridge.Poolstratum.Shares.Interleaved.Alone.{call_for, run, run-handle_block}
use kaspa_stratum_bridge.Bridge.Sound.{new_share_handler-Accounts}
use kaspa_stratum_bridge.Tests.Submissions.{refusing, start, info_example}
use kaspa_stratum_bridge.Tests.{worker_at, diff_four, busy_env, event_of, block_at}

-- Floats are added as numbers.
abbrev plus : ℕ → ℕ → ℕ
plus a b = a + b

abbrev first_call : Submission
first_call = record {
  worker = worker_at (codes "10.0.0.1") (codes "a");
  now = 5;
  hash_value = 17;
  outcome = none;
}

abbrev second_call : Submission
second_call = record {
  worker = worker_at (codes "10.0.0.2") (codes "b");
  now = 6;
  hash_value = 17;
  outcome = some stales;
}

-- A submission of a list goes on.
abbrev moved : Shared plus → List Thread → Thread → List Thread → Shared plus
moved s before x after = record {
  handler = (advance plus s.handler x).0;
  threads = before ++ (advance plus s.handler x).1 ∷ after;
}

abbrev both : Shared plus
both = record {
  handler = new_share_handler;
  threads = looking first_call ∷ looking second_call ∷ [];
}

abbrev after_second_look : Shared plus
after_second_look = moved both (looking first_call ∷ []) (looking second_call) []

abbrev after_first_look : Shared plus
after_first_look =
    moved after_second_look [] (looking first_call)
      (Interleaved.looking_again second_call 0 stales ∷ [])

-- The block of the second submission is counted.
abbrev waiting_first : List Thread
waiting_first = Interleaved.sharing first_call 1 ∷ []

abbrev looked_again : Shared plus
looked_again =
    moved after_first_look waiting_first (Interleaved.looking_again second_call 0 stales) []

abbrev counted : Shared plus
counted = moved looked_again waiting_first (Interleaved.counting second_call 0 0 stales) []

abbrev counted_overall : Shared plus
counted_overall = moved counted waiting_first (Interleaved.counting_overall second_call 0 stales) []

-- Its share, and then that of the first one.
abbrev shared_second : Shared plus
shared_second = moved counted_overall waiting_first (Interleaved.sharing second_call 0) []

abbrev credited_second : Shared plus
credited_second = moved shared_second waiting_first (Interleaved.crediting second_call 0) []

abbrev ended_second : Shared plus
ended_second = moved credited_second waiting_first (Interleaved.sharing_overall second_call) []

abbrev over_second : List Thread
over_second = Interleaved.ended second_call ∷ []

abbrev shared_first : Shared plus
shared_first = moved ended_second [] (Interleaved.sharing first_call 1) over_second

abbrev credited_first : Shared plus
credited_first = moved shared_first [] (Interleaved.crediting first_call 1) over_second

abbrev both_ended : Shared plus
both_ended = moved credited_first [] (Interleaved.sharing_overall first_call) over_second

interleaved_settled_example :
    Accounts both_ended.handler
    × ((t : Tally) → shown t both_ended.handler % 2 ^ 64 ≡ tally t both_ended.handler.overall)
    × ((t : Tally)
        → tally t both_ended.handler.overall
          ≡ (tally t new_share_handler.overall + asked_by t both_ended.threads) % 2 ^ 64)
unfolding alone_with advance get_create_stats find_by_device find_or_create create_entry modify
    new_share_handler lookup insert bytes_beq
interleaved_settled_example =
    let first_run =
      Interleaved.next
        (Interleaved.next
          (Interleaved.next
            (Interleaved.next Interleaved.here
              (begin (alone_with plus new_share_handler) first_call))
            (begin _ second_call))
          (go_on both (looking first_call ∷ []) (looking second_call) [] refl))
        (go_on after_second_look [] (looking first_call) _ refl) in
    let block_run =
      Interleaved.next
        (Interleaved.next
          (Interleaved.next first_run (
            go_on after_first_look waiting_first (Interleaved.looking_again second_call 0 stales) []
              refl))
          (go_on looked_again waiting_first (Interleaved.counting second_call 0 0 stales) [] refl))
        (go_on counted waiting_first (Interleaved.counting_overall second_call 0 stales) [] refl) in
    let second_run =
      Interleaved.next
        (Interleaved.next
          (Interleaved.next block_run
            (go_on counted_overall waiting_first (Interleaved.sharing second_call 0) [] refl))
          (go_on shared_second waiting_first (Interleaved.crediting second_call 0) [] refl))
        (go_on credited_second waiting_first (Interleaved.sharing_overall second_call) [] refl) in
    interleaved_settled plus new_share_handler both_ended new_share_handler-Accounts
      (Interleaved.next
        (Interleaved.next
          (Interleaved.next second_run
            (go_on ended_second [] (Interleaved.sharing first_call 1) over_second refl))
          (go_on shared_first [] (Interleaved.crediting first_call 1) over_second refl))
        (go_on credited_first [] (Interleaved.sharing_overall first_call) over_second refl))
      (tt, (tt, tt))

run-handle_block_example :
    run refusing.add_float 7 (
      start.handler,
      looking (
          call_for refusing busy_env
            (codes "kaspa")
            start
            (refusing.set_nonce (block_at 40) 31)
            diff_four),
    )
    ≡ (
      (handle_block refusing busy_env (codes "kaspa") start (event_of []) info_example).0.handler,
      Interleaved.ended (
          call_for refusing busy_env
            (codes "kaspa")
            start
            (refusing.set_nonce (block_at 40) 31)
            diff_four),
    )
run-handle_block_example =
    run-handle_block refusing busy_env (codes "kaspa") start (event_of []) info_example
      (block_at 40) diff_four refl refl

-- A listener with one worker that is shut down while the worker leaves.
abbrev draining : Server
draining = record {
  listening = Shutdown.draining;
  shutting_down = true;
  cancelled = true;
  closed = true;
  disconnect_listener = Shutdown.running;
  tcp_listener = Shutdown.running;
  worker_group = 2;
  accepted = 1;
  live = 1;
  sending = 0;
  disconnects = 0;
}

abbrev serving_run : Shutdown.Reach new_listener (record draining {
  listening = Shutdown.serving;
  shutting_down = false;
  cancelled = false;
  closed = false;
})
unfolding new_listener
serving_run =
    Shutdown.next
      (Shutdown.next
        (Shutdown.next (Shutdown.next Shutdown.here (Shutdown.open_socket _ refl))
          (Shutdown.add_disconnect_listener _ refl))
        (Shutdown.add_tcp_listener _ refl))
      (Shutdown.accept_connection _ refl refl)

abbrev to_draining : Shutdown.Reach new_listener draining
to_draining =
    Shutdown.next
      (Shutdown.next (Shutdown.next serving_run (Shutdown.cancel _ refl))
        (Shutdown.stop _ refl refl))
      (Shutdown.close_socket _ refl)

abbrev deaf : Server
deaf = record draining { disconnect_listener = Shutdown.finished; worker_group = 1 }

abbrev left : Server
left = record deaf { live = 0; sending = 1 }

listen_returns_example : (2 ≤ effort draining) × (IsStuck left → left.listening ≡ Shutdown.returned)
listen_returns_example = listen_returns to_draining refl (
    more (more done (Shutdown.end_disconnect_listener draining refl refl))
      (Shutdown.leave deaf 0 refl))

abbrev returned : Server
returned = record left {
  listening = Shutdown.returned;
  tcp_listener = Shutdown.finished;
  worker_group = 0;
}

abbrev to_left : Shutdown.Reach draining left
to_left =
    Shutdown.next
      (Shutdown.next Shutdown.here (Shutdown.end_disconnect_listener draining refl refl))
      (Shutdown.leave deaf 0 refl)

listen_waits_example :
    (returned.disconnect_listener ≡ Shutdown.finished) × (returned.tcp_listener ≡ Shutdown.finished)
listen_waits_example =
    listen_waits to_draining refl refl (λ e. cc)
      (Shutdown.next (Shutdown.next to_left (Shutdown.end_tcp_listener left refl refl))
        (Shutdown.drained _ refl refl))
      refl

shutdown_unheard_example :
    (left.disconnects ≡ deaf.disconnects)
    × (deaf.sending ≤ left.sending)
    × (left.accepted ≡ left.live + left.sending + deaf.disconnects)
shutdown_unheard_example =
    shutdown_unheard
      (Shutdown.next to_draining (Shutdown.end_disconnect_listener draining refl refl)) refl
      (Shutdown.next Shutdown.here (Shutdown.leave deaf 0 refl))
