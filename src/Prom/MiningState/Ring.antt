-- ===== src/Prom/MiningState/Ring.antt =====
-- The 32 slots of `MiningState` (src/prom/mining_state.go) against the history of all jobs added.
use kaspa_stratum_bridge.Base.{
  ℕ, suc, ◌+◌, ◌%◌, ◌^◌, ◌<◌, ◌≡◌, refl, List, [], ◌∷◌, ◌++◌, Option, none, some, arith, length,
  length-append, ◌==◌, if◌then◌else◌,
}
use kaspa_stratum_bridge.Base.Int.{ℤ, pos, negsuc, signed64, rem, int_eq}
use kaspa_stratum_bridge.Base.GoMap.{lookup, lookup-insert}
use kaspa_stratum_bridge.Prom.Block.{RpcBlock}
use kaspa_stratum_bridge.Prom.MiningState.{
  MiningState, maxjobs, mining_state_generator, add_job, get_job,
}

-- The state after a history of jobs, the newest first.
pub replay : ℕ → List RpcBlock → MiningState
replay now [] = mining_state_generator now
replay now (b ∷ h) = (add_job (replay now h) b).0

-- The abstract view: the newest job of a history whose number leaves remainder `r`.
pub latest : List RpcBlock → ℕ → Option RpcBlock
latest [] r = none
latest (b ∷ h) r = if suc (length h) % 32 == r then some b else latest h r

abbrev pub latest_at : List RpcBlock → ℤ → Option RpcBlock
latest_at h (pos r) = latest h r
latest_at h (negsuc r) = none

counter-replay :
    (now : ℕ) (h : List RpcBlock) → length h < 2 ^ 63 → (replay now h).job_counter ≡ length h
unfolding replay add_job mining_state_generator
counter-replay now [] l = refl
counter-replay now (b ∷ h) l = omega (arith, counter-replay now h)

key-signed64 : (n : ℕ) → n < 2 ^ 63 → rem (signed64 n) maxjobs ≡ pos (n % 32)
key-signed64 n h = ground arith

slot-replay :
    (now : ℕ) (h : List RpcBlock)
    → suc (length h) < 2 ^ 63
    → rem (signed64 (((replay now h).job_counter + 1) % 2 ^ 64)) maxjobs ≡ pos (suc (length h) % 32)
slot-replay now h l =
    let count : ((replay now h).job_counter + 1) % 2 ^ 64 ≡ suc (length h) =
      omega (arith, counter-replay now h) in
    rw count (key-signed64 (suc (length h)) l)

lookup-replay :
    (now : ℕ) (h : List RpcBlock) (k : ℤ)
    → length h < 2 ^ 63
    → lookup k (replay now h).jobs ≡ latest_at h k
unfolding replay add_job mining_state_generator lookup latest
lookup-replay now [] (pos r) l = refl
lookup-replay now [] (negsuc r) l = refl
lookup-replay now (b ∷ h) (pos r) l =
    rw
      (slot-replay now h l, lookup-insert (pos (suc (length h) % 32)) (pos r) b (replay now h).jobs)
      (ground (arith, lookup-replay now h (pos r) (omega arith)))
lookup-replay now (b ∷ h) (negsuc r) l =
    rw
      (
        slot-replay now h l,
        lookup-insert (pos (suc (length h) % 32)) (negsuc r) b (replay now h).jobs,
      )
      (lookup-replay now h (negsuc r) (omega arith))

-- `GetJob` of any number, after any history of fewer than 2 ^ 63 jobs: the newest job whose number
-- leaves the same remainder by 32, and nothing where the remainder is negative.
pub get_job-replay :
    (now : ℕ) (h : List RpcBlock) (id : ℤ)
    → length h < 2 ^ 63
    → get_job (replay now h) id ≡ latest_at h (rem id maxjobs)
unfolding get_job
get_job-replay now h id l = lookup-replay now h (rem id maxjobs) l

latest-append :
    (later h : List RpcBlock) (b : RpcBlock)
    → length later < 32
    → latest (later ++ b ∷ h) (suc (length h) % 32) ≡ some b
unfolding latest
latest-append [] h b l = ground arith
latest-append (c ∷ later) h b l =
    ground (arith, latest-append later h b, length-append later (b ∷ h))

added-slot :
    (now : ℕ) (h : List RpcBlock) (b : RpcBlock)
    → suc (length h) < 2 ^ 63
    → rem (add_job (replay now h) b).1 maxjobs ≡ pos (suc (length h) % 32)
unfolding add_job
added-slot now h b l = slot-replay now h l

-- The number that `AddJob` returns answers that very job until 32 more jobs are added.
pub get_job-add_job :
    (now : ℕ) (later h : List RpcBlock) (b : RpcBlock)
    → length later < 32
    → length (later ++ b ∷ h) < 2 ^ 63
    → get_job (replay now (later ++ b ∷ h)) (add_job (replay now h) b).1 ≡ some b
get_job-add_job now later h b l bound =
    rw
      (
        get_job-replay now (later ++ b ∷ h) (add_job (replay now h) b).1 bound,
        added-slot now h b (omega (arith, length-append later (b ∷ h))),
      )
      (latest-append later h b l)

-- Once 32 more jobs were added, the number answers a newer job, the thirty-second after it.
pub get_job_overwritten :
    (now : ℕ) (later h : List RpcBlock) (b c : RpcBlock)
    → length later ≡ 31
    → length (c ∷ later ++ b ∷ h) < 2 ^ 63
    → get_job (replay now (c ∷ later ++ b ∷ h)) (add_job (replay now h) b).1 ≡ some c
unfolding latest
get_job_overwritten now later h b c l bound =
    rw
      (
        get_job-replay now (c ∷ later ++ b ∷ h) (add_job (replay now h) b).1 bound,
        added-slot now h b (omega (arith, length-append later (b ∷ h))),
      )
      (ground (arith, length-append later (b ∷ h)))
