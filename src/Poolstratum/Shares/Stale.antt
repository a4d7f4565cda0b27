-- ===== src/Poolstratum/Shares/Stale.antt =====
-- Which work is stale by `checkStales` (src/poolstratum/share_handler.go).
use kaspa_stratum_bridge.Base.{
  ℕ, ◌+◌, ◌<◌, ◌≡◌, ◌↔◌, false, List, [], ◌∷◌, arith, leb, if◌then◌else◌, refl,
}
use kaspa_stratum_bridge.Prom.Block.{RpcBlock}
use kaspa_stratum_bridge.Prom.Metrics.{Metrics}
use kaspa_stratum_bridge.Gostratum.Worker.{WorkerContext}
use kaspa_stratum_bridge.Poolstratum.Stats.{ShareHandler}
use kaspa_stratum_bridge.Poolstratum.Shares.{work_window, check_stales}

-- The handler after checking the blocks of a list, the first one first.
unfoldable pub check_all : ShareHandler → Metrics → WorkerContext → List RpcBlock → ShareHandler
check_all sh m sc [] = sh
check_all sh m sc (block ∷ blocks) =
    check_all (check_stales sh m sc block).0 (check_stales sh m sc block).1 sc blocks

-- The highest blue score of a list of blocks and the tip.
unfoldable pub highest : ℕ → List RpcBlock → ℕ
highest tip [] = tip
highest tip (block ∷ blocks) =
    highest (if leb tip block.header.blue_score then block.header.blue_score else tip) blocks

check_stales-tip :
    (sh : ShareHandler) (m : Metrics) (sc : WorkerContext) (block : RpcBlock)
    → (check_stales sh m sc block).0.tip_blue_score ≡ (
        if leb sh.tip_blue_score block.header.blue_score
        then block.header.blue_score
        else sh.tip_blue_score)
unfolding check_stales
check_stales-tip sh m sc block = ground arith

check_all-tip :
    (sh : ShareHandler) (m : Metrics) (sc : WorkerContext) (blocks : List RpcBlock)
    → (check_all sh m sc blocks).tip_blue_score ≡ highest sh.tip_blue_score blocks
unfolding check_all highest
check_all-tip sh m sc [] = refl
check_all-tip sh m sc (block ∷ blocks) =
    rw⁻¹ (check_stales-tip sh m sc block)
      (check_all-tip (check_stales sh m sc block).0 (check_stales sh m sc block).1 sc blocks)

accepts :
    (sh : ShareHandler) (m : Metrics) (sc : WorkerContext) (block : RpcBlock)
    → ((check_stales sh m sc block).2 ≡ false)
      ↔ (block.header.blue_score + work_window < sh.tip_blue_score)
unfolding check_stales
accepts sh m sc block = ground arith

-- After any blocks, `checkStales` refuses a block exactly when its blue score is more than the window
-- of 8 below the highest blue score that it has seen.
pub check_all-stale :
    (sh : ShareHandler) (m m' : Metrics) (sc : WorkerContext) (blocks : List RpcBlock)
    (block : RpcBlock)
    → ((check_stales (check_all sh m sc blocks) m' sc block).2 ≡ false)
      ↔ (block.header.blue_score + work_window < highest sh.tip_blue_score blocks)
check_all-stale sh m m' sc blocks block =
    rw⁻¹ (check_all-tip sh m sc blocks) (accepts (check_all sh m sc blocks) m' sc block)
