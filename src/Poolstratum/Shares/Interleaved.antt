-- ===== src/Poolstratum/Shares/Interleaved.antt =====
-- The counters of src/poolstratum/share_handler.go while submissions interleave: each call of
-- `HandleSubmit` goes on by one lookup under `statsLock` or one addition to a counter at a time. The
-- steps start behind the parsed nonce and the converted block; what the node answered is given.
pub mod Lookups
pub mod Counted
pub mod Moves
pub mod Settling
pub mod Alone
use kaspa_stratum_bridge.Base.{ℕ, ◌≡◌, List, [], ◌∷◌, ◌++◌, Option, none, some}
use kaspa_stratum_bridge.Gostratum.Worker.{WorkerContext}
use kaspa_stratum_bridge.Poolstratum.Stats.{WorkStats, ShareHandler, modify, get_create_stats}
use kaspa_stratum_bridge.Poolstratum.Stats.Totals.{Tally, blocks, shares, stales, invalids}
use kaspa_stratum_bridge.Poolstratum.Shares.{add_block, add_share, add_stale, add_invalid}

-- A submission: its worker, the time, the value of its share, and the counter to which the node's answer
-- goes, if the block was sent.
pub record Submission : Type 0 where
  pub worker : WorkerContext
  pub now : ℕ
  pub hash_value : ℕ
  pub outcome : Option Tally

-- Where a submission stands: before its first lookup, before that of `temp_kasp_submit`, before the two
-- counters for the block, and before those for the share. A number is a pointer that it holds.
pub data Thread : Type 0 where
  looking : Submission → Thread
  looking_again : Submission → ℕ → Tally → Thread
  counting : Submission → ℕ → ℕ → Tally → Thread
  counting_overall : Submission → ℕ → Tally → Thread
  sharing : Submission → ℕ → Thread
  crediting : Submission → ℕ → Thread
  sharing_overall : Submission → Thread
  ended : Submission → Thread

abbrev pub add_of : Tally → WorkStats → WorkStats
add_of blocks = add_block
add_of shares = add_share
add_of stales = add_stale
add_of invalids = add_invalid

-- After the first lookup: the block was sent or not.
abbrev pub after_look : Submission → ℕ → Option Tally → Thread
after_look c p none = sharing c p
after_look c p (some t) = looking_again c p t

module _ (add_float : ℕ → ℕ → ℕ) where
  -- `stats.SharesDiff.Add` and `stats.LastShare = time.Now()`.
  abbrev pub credit : Submission → WorkStats → WorkStats
  credit c s = record s { shares_diff = add_float s.shares_diff c.hash_value; last_share = c.now }

  -- The next step of a submission.
  unfoldable pub advance : ShareHandler → Thread → ShareHandler × Thread
  unfolding modify
  advance sh (looking c) =
      let (sh', p, m) = get_create_stats sh [] c.worker c.now in (sh', after_look c p c.outcome)
  advance sh (looking_again c p t) =
      let (sh', q, m) = get_create_stats sh [] c.worker c.now in (sh', counting c p q t)
  advance sh (counting c p q t) =
      (record sh { store = modify q (add_of t) sh.store }, counting_overall c p t)
  advance sh (counting_overall c p t) = (record sh { overall = add_of t sh.overall }, sharing c p)
  advance sh (sharing c p) = (record sh { store = modify p add_share sh.store }, crediting c p)
  advance sh (crediting c p) =
      (record sh { store = modify p (credit c) sh.store }, sharing_overall c)
  advance sh (sharing_overall c) = (record sh { overall = add_share sh.overall }, ended c)
  advance sh (ended c) = (sh, ended c)

  -- The handler and the submissions that have begun.
  pub record Shared : Type 0 where
    pub handler : ShareHandler
    pub threads : List Thread

  unfoldable pub alone_with : ShareHandler → Shared
  alone_with sh = record { handler = sh; threads = [] }

  -- A submission begins, any of them goes on, or the goroutine of `OnConnect` looks a worker up.
  pub data Step : Shared → Shared → Type 0 where
    begin :
        (s : Shared) (c : Submission) → Step s (record s { threads = s.threads ++ looking c ∷ [] })
    go_on :
        (s : Shared) (before : List Thread) (thread : Thread) (after : List Thread)
        → s.threads ≡ before ++ thread ∷ after
        → Step s (record {
          handler = (advance s.handler thread).0;
          threads = before ++ (advance s.handler thread).1 ∷ after;
        })
    look_on_connect :
        (s : Shared) (worker : WorkerContext) (now : ℕ)
        → Step s (record s { handler = (get_create_stats s.handler [] worker now).0 })

  pub data Reach (s : Shared) : Shared → Type 0 where
    here : Reach s s
    next : {t u : Shared} → Reach s t → Step t u → Reach s u
