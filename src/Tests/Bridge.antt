-- ===== src/Tests/Bridge.antt =====
-- The theorems of the model of the whole bridge (src/poolstratum/stratum_server.go) on a short run.
use kaspa_stratum_bridge.Base.{◌%◌, ◌^◌, ◌≡◌, arith, [], ◌∷◌, some, true, false}
use kaspa_stratum_bridge.Text.{Bytes, codes}
use kaspa_stratum_bridge.Gostratum.Worker.NoPanic.{NoPanic}
use kaspa_stratum_bridge.Gostratum.Listener.{received}
use kaspa_stratum_bridge.Bridge.{
  Setting, State, start, accept, receive, new_block_available, submit_share,
}
use kaspa_stratum_bridge.Bridge.Reach.{Reach, here, next, connection, reading, template}
use kaspa_stratum_bridge.Text.{bytes_eq}
use kaspa_stratum_bridge.Poolstratum.Stats.Totals.{Tally, tally}
use kaspa_stratum_bridge.Poolstratum.Stats.Shown.{shown}
use kaspa_stratum_bridge.Poolstratum.Listener.{new_workers_listener}
use kaspa_stratum_bridge.Poolstratum.Listener.Blocks.Balances.{
  IsSpaced, query_times, query_times-IsSpaced,
}
use kaspa_stratum_bridge.Bridge.Sound.{IsSound, start-IsSound_reached, submit_share_reached}
use kaspa_stratum_bridge.Tests.Submissions.{refusing}
use kaspa_stratum_bridge.Tests.Notifications.{zero_hash, number_floats}
use kaspa_stratum_bridge.Tests.{busy_env, event_of}

-- Every line is read as the same submission.
abbrev pub setting : Setting
setting = record {
  kaspad = refusing;
  blake2b = zero_hash;
  floats = number_floats;
  decode_address = λ address. true;
  unmarshal_event = λ line. some (event_of (codes "rig" ∷ codes "1" ∷ codes "0x1f" ∷ []));
  wraps_deadline = λ e. false;
  chain_type = codes "kaspa";
  min_share_diff = 4;
  in_kas = λ balance. balance;
}

abbrev submission : Bytes
submission = codes "{}\n"

abbrev pub connected : State setting
connected = accept setting 5 (codes "10.0.0.1:4000") (start setting 2)

abbrev answered : State setting
answered = (receive setting busy_env 0 (received submission) false connected).0

abbrev short_run :
    Reach setting (start setting 2) (new_block_available setting 70_000_000_000 answered)
unfolding start accept
short_run =
    next
      (next (next here (connection (start setting 2) 5 (codes "10.0.0.1:4000")))
        (reading connected busy_env 0 (received submission) false (omega arith)))
      (template answered 70_000_000_000)

start-IsSound_reached_example :
    IsSound setting (new_block_available setting 70_000_000_000 answered)
    × ((t : Tally)
        → shown t (new_block_available setting 70_000_000_000 answered).handler % 2 ^ 64
          ≡ tally t (new_block_available setting 70_000_000_000 answered).handler.overall)
start-IsSound_reached_example =
    start-IsSound_reached setting 2 (new_block_available setting 70_000_000_000 answered) short_run

submit_share_reached_example :
    NoPanic
      (submit_share setting busy_env
        (new_block_available setting 70_000_000_000 answered)
        0
        (event_of (codes "rig" ∷ []))).1
submit_share_reached_example =
    submit_share_reached setting 2 (new_block_available setting 70_000_000_000 answered) busy_env 0
      (event_of (codes "rig" ∷ [])) short_run

query_times-IsSpaced_example : IsSpaced 0 (
    query_times
      (new_workers_listener 2)
      ((70_000_000_000, codes "a" ∷ []) ∷ (80_000_000_000, codes "a" ∷ []) ∷ []))
unfolding new_workers_listener
query_times-IsSpaced_example =
    query_times-IsSpaced (new_workers_listener 2)
      ((70_000_000_000, codes "a" ∷ []) ∷ (80_000_000_000, codes "a" ∷ []) ∷ [])
