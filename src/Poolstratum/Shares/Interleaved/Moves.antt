-- ===== src/Poolstratum/Shares/Interleaved/Moves.antt =====
-- One step of a submission of src/poolstratum/share_handler.go and the counters.
use kaspa_stratum_bridge.Base.{
  ℕ, ◌+◌, ◌%◌, ◌^◌, ◌≤◌, ◌<◌, ◌≡◌, refl, sym, ap, arith, [], Option, none, some, length,
}
use kaspa_stratum_bridge.Poolstratum.Stats.{WorkStats, ShareHandler, modify, get_create_stats}
use kaspa_stratum_bridge.Poolstratum.Stats.Listed.{KeepsName, names-modify}
use kaspa_stratum_bridge.Poolstratum.Stats.Totals.{
  Tally, blocks, shares, stales, invalids, tally, length-modify,
}
use kaspa_stratum_bridge.Poolstratum.Shares.{add_share}
use kaspa_stratum_bridge.Poolstratum.Shares.Interleaved.{
  Submission, Thread, looking, looking_again, counting, counting_overall, sharing, crediting,
  sharing_overall, ended, add_of, after_look, credit, advance,
}
use kaspa_stratum_bridge.Poolstratum.Shares.Interleaved.Lookups.{
  IsPointing, Looked, get_create_stats-Looked,
}
use kaspa_stratum_bridge.Poolstratum.Shares.Interleaved.Counted.{
  Balance, IsHeld, add_of-small, add_of-tally, due, is_outcome, is_same, pending,
  total-modify-grown,
}

module _ (add_float : ℕ → ℕ → ℕ) where
  -- What a step of one submission leaves of the pointers.
  pub record Stands (sh sh' : ShareHandler) (x' : Thread) : Type 0 where
    pub pointing : IsPointing sh'
    pub held : IsHeld (length sh'.store) x'
    pub grows : length sh.store ≤ length sh'.store

  after_look-IsHeld :
      (n p : ℕ) (c : Submission) (o : Option Tally) → p < n → IsHeld n (after_look c p o)
  after_look-IsHeld n p c none h = h
  after_look-IsHeld n p c (some t) h = h

  add_of-KeepsName : (t : Tally) → KeepsName (add_of t)
  add_of-KeepsName Tally.blocks s = refl
  add_of-KeepsName Tally.shares s = refl
  add_of-KeepsName Tally.stales s = refl
  add_of-KeepsName Tally.invalids s = refl

  -- A write through a pointer.
  written-Stands :
      (sh : ShareHandler) (q : ℕ) (f : WorkStats → WorkStats) (x' : Thread)
      → KeepsName f
      → IsPointing sh
      → IsHeld (length sh.store) x'
      → Stands sh (record sh { store = modify q f sh.store }) x'
  written-Stands sh q f x' named pointing held =
      let same = length-modify f q sh.store in
      record {
        pointing = rw (names-modify f q sh.store named) pointing;
        held = rw same held;
        grows = omega (arith, same);
      }

  pub advance-Stands :
      (sh : ShareHandler) (x : Thread)
      → IsPointing sh
      → IsHeld (length sh.store) x
      → Stands sh (advance add_float sh x).0 (advance add_float sh x).1
  unfolding advance
  advance-Stands sh (looking c) pointing held =
      let l = get_create_stats-Looked sh [] c.worker c.now pointing in
      record {
        pointing = l.pointing;
        held = after_look-IsHeld _ _ c c.outcome l.in_store;
        grows = l.grows;
      }
  advance-Stands sh (looking_again c p u) pointing held =
      let l = get_create_stats-Looked sh [] c.worker c.now pointing in
      record {
        pointing = l.pointing;
        held = (omega (arith, held, l.grows), l.in_store);
        grows = l.grows;
      }
  advance-Stands sh (counting c p q u) pointing held =
      written-Stands sh q (add_of u) (counting_overall c p u) (add_of-KeepsName u) pointing held.0
  advance-Stands sh (counting_overall c p u) pointing held = record {
    pointing = pointing;
    held = held;
    grows = omega arith;
  }
  advance-Stands sh (sharing c p) pointing held =
      written-Stands sh p add_share (crediting c p) (λ s. refl) pointing held
  advance-Stands sh (crediting c p) pointing held =
      written-Stands sh p (credit add_float c) (sharing_overall c) (λ s. refl) pointing tt
  advance-Stands sh (sharing_overall c) pointing held = record {
    pointing = pointing;
    held = tt;
    grows = omega arith;
  }
  advance-Stands sh (ended c) pointing held = record {
    pointing = pointing;
    held = tt;
    grows = omega arith;
  }

  -- What a lookup leaves of a counter.
  pub Looked-Balance :
      (sh sh' : ShareHandler) (p : ℕ) (t : Tally) (o d target : ℕ)
      → Looked sh sh' p
      → Balance sh t o d target
      → Balance sh' t o d target
  Looked-Balance sh sh' p t o d target l b =
      let kept = ap (tally t) l.overall_kept in
      record {
        balanced = omega (arith, l.same_total t, b.balanced, kept);
        counted = omega (arith, b.counted, kept);
        small = omega (arith, b.small, kept);
      }

  written-Balance :
      (sh : ShareHandler) (q k : ℕ) (f : WorkStats → WorkStats) (t : Tally) (o d target : ℕ)
      → ((s : WorkStats) → tally t (f s) % 2 ^ 64 ≡ (tally t s + k) % 2 ^ 64)
      → q < length sh.store
      → Balance sh t o d target
      → Balance (record sh { store = modify q f sh.store }) t (k + o) d target
  written-Balance sh q k f t o d target h l b = record {
    balanced = omega (arith, b.balanced, total-modify-grown t k f q sh.store h l);
    counted = b.counted;
    small = b.small;
  }

  overall-Balance :
      (sh : ShareHandler) (u t : Tally) (o d target : ℕ)
      → Balance sh t (is_same t u + o) (is_same t u + d) target
      → Balance (record sh { overall = add_of u sh.overall }) t o d target
  overall-Balance sh u t o d target b = record {
    balanced = omega (arith, b.balanced, add_of-tally t u sh.overall);
    counted = omega (arith, b.counted, add_of-tally t u sh.overall);
    small = add_of-small t u sh.overall b.small;
  }

  credit-tally :
      (c : Submission) (t : Tally) (s : WorkStats)
      → tally t (credit add_float c s) % 2 ^ 64 ≡ (tally t s + 0) % 2 ^ 64
  credit-tally c blocks s = omega arith
  credit-tally c shares s = omega arith
  credit-tally c stales s = omega arith
  credit-tally c invalids s = omega arith

  after_look-due :
      (t : Tally) (c : Submission) (p : ℕ) (o : Option Tally)
      → due t (after_look c p o) ≡ is_outcome t o + is_same t shares
  after_look-due t c p none = omega arith
  after_look-due t c p (some u) = refl

  after_look-pending :
      (t : Tally) (c : Submission) (p : ℕ) (o : Option Tally) → pending t (after_look c p o) ≡ 0
  after_look-pending t c p none = refl
  after_look-pending t c p (some u) = refl

  -- The same counts, written otherwise.
  pub recounted :
      (sh : ShareHandler) (t : Tally) (o o' d d' target : ℕ)
      → o ≡ o'
      → d ≡ d'
      → Balance sh t o d target
      → Balance sh t o' d' target
  recounted sh t o o' d d' target e h b = rw (sym e, sym h) b

  pub advance-Balance :
      (sh : ShareHandler) (x : Thread) (t : Tally) (o d target : ℕ)
      → IsPointing sh
      → IsHeld (length sh.store) x
      → Balance sh t (pending t x + o) (due t x + d) target
      → Balance
          (advance add_float sh x).0
          t
          (pending t (advance add_float sh x).1 + o)
          (due t (advance add_float sh x).1 + d)
          target
  unfolding advance
  advance-Balance sh (looking c) t o d target pointing held b =
      let l = get_create_stats-Looked sh [] c.worker c.now pointing in
      let p = (get_create_stats sh [] c.worker c.now).1 in
      recounted _ t _ _ _ _ target (omega (arith, after_look-pending t c p c.outcome))
        (omega (arith, after_look-due t c p c.outcome)) (Looked-Balance sh _ p t _ _ target l b)
  advance-Balance sh (looking_again c p u) t o d target pointing held b =
      let l = get_create_stats-Looked sh [] c.worker c.now pointing in
      Looked-Balance sh _ _ t _ _ target l b
  advance-Balance sh (counting c p q u) t o d target pointing held b =
      recounted _ t _ _ _ _ target (omega arith) refl
        (written-Balance sh q (is_same t u) (add_of u) t _ _ target (add_of-tally t u) held.1 b)
  advance-Balance sh (counting_overall c p u) t o d target pointing held b =
      recounted _ t _ _ _ _ target (omega arith) refl
        (overall-Balance sh u t _ _ target (recounted sh t _ _ _ _ target refl (omega arith) b))
  advance-Balance sh (sharing c p) t o d target pointing held b =
      recounted _ t _ _ _ _ target (omega arith) refl (
        written-Balance sh p (is_same t shares) add_share t _ _ target (add_of-tally t shares) held
          b)
  advance-Balance sh (crediting c p) t o d target pointing held b =
      recounted _ t _ _ _ _ target (omega arith) refl
        (written-Balance sh p 0 (credit add_float c) t _ _ target (credit-tally c t) held b)
  advance-Balance sh (sharing_overall c) t o d target pointing held b =
      recounted _ t _ _ _ _ target (omega arith) (omega arith)
        (overall-Balance sh shares t _ _ target b)
  advance-Balance sh (ended c) t o d target pointing held b = b
