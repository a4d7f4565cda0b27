-- ===== src/Poolstratum/Shares/Interleaved/Settling.antt =====
-- The counters of src/poolstratum/share_handler.go once submissions that interleave have ended.
use mathlib.Core.List.{append-nil}
use kaspa_stratum_bridge.Base.{
  ℕ, ◌+◌, ◌%◌, ◌^◌, ◌≤◌, ◌≡◌, refl, ap, ◌∙◌, arith, List, [], ◌∷◌, ◌++◌, All, All-append, Option,
  none, some, length,
}
use kaspa_stratum_bridge.Poolstratum.Stats.{ShareHandler}
use kaspa_stratum_bridge.Poolstratum.Stats.Totals.{Tally, tally, total, Accounts}
use kaspa_stratum_bridge.Poolstratum.Stats.Shown.{shown, Accounts-shown}
use kaspa_stratum_bridge.Poolstratum.Shares.Interleaved.{
  Submission, Thread, looking, looking_again, counting, counting_overall, sharing, crediting,
  sharing_overall, ended, after_look, advance, Shared, alone_with, Step, begin, go_on,
  look_on_connect, Reach, here, next,
}
use kaspa_stratum_bridge.Poolstratum.Shares.Interleaved.Lookups.{
  IsPointing, get_create_stats-Looked,
}
use kaspa_stratum_bridge.Poolstratum.Shares.Interleaved.Counted.{
  asked, pending, due, call_of, IsHeld, sum_of, sum_of-middle, Balance,
}
use kaspa_stratum_bridge.Poolstratum.Shares.Interleaved.Moves.{
  advance-Stands, advance-Balance, Looked-Balance, recounted,
}

-- What all submissions that have begun ask for.
abbrev pub asked_by : Tally → List Thread → ℕ
asked_by t threads = sum_of (λ x. asked t (call_of x)) threads

sum_of-snoc :
    (f : Thread → ℕ) (xs : List Thread) (y : Thread) → sum_of f (xs ++ y ∷ []) ≡ f y + sum_of f xs
sum_of-snoc f xs y = sum_of-middle f xs y [] ∙ ap (λ zs. f y + sum_of f zs) (append-nil xs)

IsHeld-mono : (m n : ℕ) (x : Thread) → m ≤ n → IsHeld m x → IsHeld n x
IsHeld-mono m n (looking c) l h = tt
IsHeld-mono m n (looking_again c p u) l h = omega arith
IsHeld-mono m n (counting c p q u) l h = omega arith
IsHeld-mono m n (counting_overall c p u) l h = omega arith
IsHeld-mono m n (sharing c p) l h = omega arith
IsHeld-mono m n (crediting c p) l h = omega arith
IsHeld-mono m n (sharing_overall c) l h = tt
IsHeld-mono m n (ended c) l h = tt

All-IsHeld : (m n : ℕ) (xs : List Thread) → m ≤ n → All (IsHeld m) xs → All (IsHeld n) xs
All-IsHeld m n [] l h = tt
All-IsHeld m n (x ∷ xs) l h = (IsHeld-mono m n x l h.0, All-IsHeld m n xs l h.1)

-- One submission of a list that goes on, while the store grows.
IsHeld-middle :
    (m n : ℕ) (xs : List Thread) (y z : Thread) (ys : List Thread)
    → m ≤ n
    → IsHeld n z
    → All (IsHeld m) (xs ++ y ∷ ys)
    → All (IsHeld n) (xs ++ z ∷ ys)
IsHeld-middle m n [] y z ys l h a = (h, All-IsHeld m n ys l a.1)
IsHeld-middle m n (x ∷ xs) y z ys l h a =
    (IsHeld-mono m n x l a.0, IsHeld-middle m n xs y z ys l h a.1)

IsHeld-at :
    (n : ℕ) (xs : List Thread) (y : Thread) (ys : List Thread)
    → All (IsHeld n) (xs ++ y ∷ ys)
    → IsHeld n y
IsHeld-at n [] y ys a = a.0
IsHeld-at n (x ∷ xs) y ys a = IsHeld-at n xs y ys a.1

record IsConsistent (add_float : ℕ → ℕ → ℕ) (first : ShareHandler) (s : Shared add_float)
    : Type 0 where
  pointing : IsPointing s.handler
  held : All (IsHeld (length s.handler.store)) s.threads
  balance :
      (t : Tally)
      → Balance s.handler t
          (sum_of (pending t) s.threads)
          (sum_of (due t) s.threads)
          (tally t first.overall + asked_by t s.threads)

module _ (add_float : ℕ → ℕ → ℕ) (first : ShareHandler) where
  abbrev Consistent : Shared add_float → Type 0
  Consistent = IsConsistent add_float first

  after_look-call : (c : Submission) (p : ℕ) (o : Option Tally) → call_of (after_look c p o) ≡ c
  after_look-call c p none = refl
  after_look-call c p (some t) = refl

  advance-call : (sh : ShareHandler) (x : Thread) → call_of (advance add_float sh x).1 ≡ call_of x
  unfolding advance
  advance-call sh (looking c) = after_look-call c _ c.outcome
  advance-call sh (looking_again c p u) = refl
  advance-call sh (counting c p q u) = refl
  advance-call sh (counting_overall c p u) = refl
  advance-call sh (sharing c p) = refl
  advance-call sh (crediting c p) = refl
  advance-call sh (sharing_overall c) = refl
  advance-call sh (ended c) = refl

  first-Consistent : Accounts first → Consistent (alone_with add_float first)
  unfolding alone_with
  first-Consistent a = record {
    pointing = a.listed;
    held = tt;
    balance = λ t. record {
      balanced = omega (arith, a.balanced t);
      counted = refl;
      small = omega (arith, a.balanced t);
    };
  }

  begin-Consistent :
      (s : Shared add_float) (c : Submission)
      → Consistent s
      → Consistent (record s { threads = s.threads ++ looking c ∷ [] })
  begin-Consistent s c h = record {
    pointing = h.pointing;
    held = All-append (IsHeld (length s.handler.store)) s.threads _ h.held (tt, tt);
    balance = λ t.
        let b = h.balance t in
        record {
          balanced = omega (arith, b.balanced, sum_of-snoc (pending t) s.threads (looking c));
          counted = omega (
            arith,
            b.counted,
            sum_of-snoc (due t) s.threads (looking c),
            sum_of-snoc (λ x. asked t (call_of x)) s.threads (looking c),
          );
          small = b.small;
        };
  }

  go_on-Consistent :
      (s : Shared add_float) (before : List Thread) (x : Thread) (after : List Thread)
      → s.threads ≡ before ++ x ∷ after
      → Consistent s
      → Consistent (record {
        handler = (advance add_float s.handler x).0;
        threads = before ++ (advance add_float s.handler x).1 ∷ after;
      })
  go_on-Consistent s before x after e h =
      let n = length s.handler.store in
      let x' = (advance add_float s.handler x).1 in
      let rest = before ++ after in
      let all = rw e at h.held in
      let mine = IsHeld-at n before x after all in
      let stands = advance-Stands add_float s.handler x h.pointing mine in
      record {
        pointing = stands.pointing;
        held = IsHeld-middle n _ before x x' after stands.grows stands.held all;
        balance = λ t.
            let given : (f : Thread → ℕ) → sum_of f s.threads ≡ f x + sum_of f rest =
              λ f. ap (sum_of f) e ∙ sum_of-middle f before x after in
            let target = tally t first.overall + asked_by t s.threads in
            let before_step =
              recounted add_float s.handler t _ _ _ _ target (given (pending t)) (given (due t))
                (h.balance t) in
            let b =
              advance-Balance add_float s.handler x t (sum_of (pending t) rest)
                (sum_of (due t) rest) target h.pointing mine before_step in
            let same = ap (asked t) (advance-call s.handler x) in
            record {
              balanced = omega (arith, b.balanced, sum_of-middle (pending t) before x' after);
              counted = omega (
                arith,
                b.counted,
                same,
                given (λ y. asked t (call_of y)),
                sum_of-middle (due t) before x' after,
                sum_of-middle (λ y. asked t (call_of y)) before x' after,
              );
              small = b.small;
            };
      }

  Step-Consistent : {s t : Shared add_float} → Step add_float s t → Consistent s → Consistent t
  Step-Consistent (begin s c) h = begin-Consistent s c h
  Step-Consistent (go_on s before x after e) h = go_on-Consistent s before x after e h
  Step-Consistent (look_on_connect s worker now) h =
      let l = get_create_stats-Looked s.handler [] worker now h.pointing in
      record {
        pointing = l.pointing;
        held = All-IsHeld _ _ s.threads l.grows h.held;
        balance = λ t. Looked-Balance add_float s.handler _ _ t _ _ _ l (h.balance t);
      }

  Reach-Consistent : {s t : Shared add_float} → Reach add_float s t → Consistent s → Consistent t
  Reach-Consistent here h = h
  Reach-Consistent (next reach step) h = Step-Consistent step (Reach-Consistent reach h)

-- The submission has returned.
abbrev pub IsEnded : Thread → Type 0
IsEnded (looking c) = ⊥
IsEnded (looking_again c p u) = ⊥
IsEnded (counting c p q u) = ⊥
IsEnded (counting_overall c p u) = ⊥
IsEnded (sharing c p) = ⊥
IsEnded (crediting c p) = ⊥
IsEnded (sharing_overall c) = ⊥
IsEnded (ended c) = Unit

nothing_open :
    (t : Tally) (xs : List Thread)
    → All IsEnded xs
    → (sum_of (pending t) xs ≡ 0) × (sum_of (due t) xs ≡ 0)
nothing_open t [] h = (refl, refl)
nothing_open t (looking c ∷ xs) h = absurd h.0
nothing_open t (looking_again c p u ∷ xs) h = absurd h.0
nothing_open t (counting c p q u ∷ xs) h = absurd h.0
nothing_open t (counting_overall c p u ∷ xs) h = absurd h.0
nothing_open t (sharing c p ∷ xs) h = absurd h.0
nothing_open t (crediting c p ∷ xs) h = absurd h.0
nothing_open t (sharing_overall c ∷ xs) h = absurd h.0
nothing_open t (ended c ∷ xs) h =
    let rest = nothing_open t xs h.1 in (omega (arith, rest.0), omega (arith, rest.1))

-- However the lookups and additions of any number of submissions interleave, starting where the accounts
-- hold: at every moment each overall counter, with what the submissions have added to workers' counters
-- and not yet to it, is the sum of the counters of all records that were made, modulo 2^64.
pub interleaved_balance :
    (add_float : ℕ → ℕ → ℕ) (first : ShareHandler) (s : Shared add_float) (t : Tally)
    → Accounts first
    → Reach add_float (alone_with add_float first) s
    → total t s.handler.store % 2 ^ 64
      ≡ (tally t s.handler.overall + sum_of (pending t) s.threads) % 2 ^ 64
interleaved_balance add_float first s t accounts reach =
    ((Reach-Consistent add_float first reach (first-Consistent add_float first accounts)).balance
      t).balanced

-- However the lookups and additions of any number of submissions interleave, starting where the accounts
-- hold: once all of them have ended, the accounts hold again, so that the map's entries point to records
-- under their devices, each record that was made and whose device is not empty stands in the map, and
-- the overall counters are the sums of the counters of all records that were made, modulo 2^64; these are
-- the sum over the map's entries and the sum over the records that no entry points to; and each overall
-- counter has grown by what the submissions asked for, one share each and the counter of the node's answer.
pub interleaved_settled :
    (add_float : ℕ → ℕ → ℕ) (first : ShareHandler) (s : Shared add_float)
    → Accounts first
    → Reach add_float (alone_with add_float first) s
    → All IsEnded s.threads
    → Accounts s.handler
      × ((t : Tally) → shown t s.handler % 2 ^ 64 ≡ tally t s.handler.overall)
      × ((t : Tally)
          → tally t s.handler.overall ≡ (tally t first.overall + asked_by t s.threads) % 2 ^ 64)
interleaved_settled add_float first s accounts reach over =
    let h = Reach-Consistent add_float first reach (first-Consistent add_float first accounts) in
    let settled : Accounts s.handler = record {
      listed = h.pointing;
      balanced = λ t.
          omega
            (arith, (h.balance t).balanced, (h.balance t).small, (nothing_open t s.threads over).0);
    } in
    (
      settled,
      (λ t. Accounts-shown t s.handler settled),
      λ t.
          omega
            (arith, (h.balance t).counted, (h.balance t).small, (nothing_open t s.threads over).1),
    )
