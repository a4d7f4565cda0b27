-- ===== src/Poolstratum/Shares/Interleaved/Counted.antt =====
-- The counters of src/poolstratum/share_handler.go at every moment of submissions that interleave.
use kaspa_stratum_bridge.Base.{
  ℕ, zero, suc, ◌+◌, ◌%◌, ◌^◌, ◌<◌, ◌≡◌, refl, arith, List, [], ◌∷◌, ◌++◌, Option, none, some,
  length,
}
use kaspa_stratum_bridge.Poolstratum.Stats.{WorkStats, ShareHandler, modify}
use kaspa_stratum_bridge.Poolstratum.Stats.Totals.{
  Tally, blocks, shares, stales, invalids, tally, total,
}
use kaspa_stratum_bridge.Poolstratum.Shares.Interleaved.{
  Submission, Thread, looking, looking_again, counting, counting_overall, sharing, crediting,
  sharing_overall, ended, add_of,
}

-- One if the two counters are the same.
abbrev pub is_same : Tally → Tally → ℕ
is_same blocks blocks = 1
is_same shares shares = 1
is_same stales stales = 1
is_same invalids invalids = 1
is_same t u = 0

abbrev pub is_outcome : Tally → Option Tally → ℕ
is_outcome t none = 0
is_outcome t (some u) = is_same t u

-- What a submission adds to the overall counter in all.
abbrev pub asked : Tally → Submission → ℕ
asked t c = is_outcome t c.outcome + is_same t shares

-- What it has added to a worker's counter, and not yet to the overall one.
abbrev pub pending : Tally → Thread → ℕ
pending t (looking c) = 0
pending t (looking_again c p u) = 0
pending t (counting c p q u) = 0
pending t (counting_overall c p u) = is_same t u
pending t (sharing c p) = 0
pending t (crediting c p) = is_same t shares
pending t (sharing_overall c) = is_same t shares
pending t (ended c) = 0

-- What it is still to add to the overall counter.
abbrev pub due : Tally → Thread → ℕ
due t (looking c) = asked t c
due t (looking_again c p u) = is_same t u + is_same t shares
due t (counting c p q u) = is_same t u + is_same t shares
due t (counting_overall c p u) = is_same t u + is_same t shares
due t (sharing c p) = is_same t shares
due t (crediting c p) = is_same t shares
due t (sharing_overall c) = is_same t shares
due t (ended c) = 0

abbrev pub call_of : Thread → Submission
call_of (looking c) = c
call_of (looking_again c p u) = c
call_of (counting c p q u) = c
call_of (counting_overall c p u) = c
call_of (sharing c p) = c
call_of (crediting c p) = c
call_of (sharing_overall c) = c
call_of (ended c) = c

-- The pointers of a submission point into a store of a size.
abbrev pub IsHeld : ℕ → Thread → Type 0
IsHeld n (looking c) = Unit
IsHeld n (looking_again c p u) = p < n
IsHeld n (counting c p q u) = (p < n) × (q < n)
IsHeld n (counting_overall c p u) = p < n
IsHeld n (sharing c p) = p < n
IsHeld n (crediting c p) = p < n
IsHeld n (sharing_overall c) = Unit
IsHeld n (ended c) = Unit

abbrev pub sum_of : (Thread → ℕ) → List Thread → ℕ
sum_of f [] = 0
sum_of f (x ∷ xs) = f x + sum_of f xs

pub sum_of-middle :
    (f : Thread → ℕ) (xs : List Thread) (y : Thread) (ys : List Thread)
    → sum_of f (xs ++ y ∷ ys) ≡ f y + sum_of f (xs ++ ys)
sum_of-middle f [] y ys = refl
sum_of-middle f (x ∷ xs) y ys = omega (arith, sum_of-middle f xs y ys)

-- The state of the handler against one submission: what the others add is left to two numbers.
pub record Balance (sh : ShareHandler) (t : Tally) (open_sum due_sum target : ℕ) : Type 0 where
  pub balanced : total t sh.store % 2 ^ 64 ≡ (tally t sh.overall + open_sum) % 2 ^ 64
  pub counted : (tally t sh.overall + due_sum) % 2 ^ 64 ≡ target % 2 ^ 64
  pub small : tally t sh.overall < 2 ^ 64

pub add_of-tally :
    (t u : Tally) (s : WorkStats)
    → tally t (add_of u s) % 2 ^ 64 ≡ (tally t s + is_same t u) % 2 ^ 64
add_of-tally blocks blocks s = omega arith
add_of-tally blocks shares s = omega arith
add_of-tally blocks stales s = omega arith
add_of-tally blocks invalids s = omega arith
add_of-tally shares blocks s = omega arith
add_of-tally shares shares s = omega arith
add_of-tally shares stales s = omega arith
add_of-tally shares invalids s = omega arith
add_of-tally stales blocks s = omega arith
add_of-tally stales shares s = omega arith
add_of-tally stales stales s = omega arith
add_of-tally stales invalids s = omega arith
add_of-tally invalids blocks s = omega arith
add_of-tally invalids shares s = omega arith
add_of-tally invalids stales s = omega arith
add_of-tally invalids invalids s = omega arith

pub add_of-small :
    (t u : Tally) (s : WorkStats) → tally t s < 2 ^ 64 → tally t (add_of u s) < 2 ^ 64
add_of-small blocks blocks s h = omega arith
add_of-small blocks shares s h = h
add_of-small blocks stales s h = h
add_of-small blocks invalids s h = h
add_of-small shares blocks s h = h
add_of-small shares shares s h = omega arith
add_of-small shares stales s h = h
add_of-small shares invalids s h = h
add_of-small stales blocks s h = h
add_of-small stales shares s h = h
add_of-small stales stales s h = omega arith
add_of-small stales invalids s h = h
add_of-small invalids blocks s h = h
add_of-small invalids shares s h = h
add_of-small invalids stales s h = h
add_of-small invalids invalids s h = omega arith

-- A write through a pointer changes a total as it changes the record.
pub total-modify-grown :
    (t : Tally) (k : ℕ) (f : WorkStats → WorkStats) (p : ℕ) (store : List WorkStats)
    → ((s : WorkStats) → tally t (f s) % 2 ^ 64 ≡ (tally t s + k) % 2 ^ 64)
    → p < length store
    → total t (modify p f store) % 2 ^ 64 ≡ (total t store + k) % 2 ^ 64
unfolding total modify
total-modify-grown t k f p [] h l = absurd (omega arith)
total-modify-grown t k f zero (s ∷ store) h l = omega (arith, h s)
total-modify-grown t k f (suc p) (s ∷ store) h l =
    omega (arith, total-modify-grown t k f p store h (omega arith))
