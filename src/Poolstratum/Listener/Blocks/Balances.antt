-- ===== src/Poolstratum/Listener/Blocks/Balances.antt =====
-- How often `NewBlockAvailable` of src/poolstratum/workers_listener.go asks for balances, under calls that
-- take turns: the test and the write of the time stand outside of the lock, so two calls that run at
-- once may both ask.
use kaspa_stratum_bridge.Base.{
  ℕ, ◌+◌, ◌≤◌, ◌<◌, ◌≡◌, refl, arith, List, [], ◌∷◌, Bool, true, false, Option, none, some,
  if◌then◌else◌,
}
use kaspa_stratum_bridge.Text.{Bytes}
use kaspa_stratum_bridge.Poolstratum.Listener.{WorkersListener}
use kaspa_stratum_bridge.Poolstratum.Listener.Blocks.{is_due, check_balances}

-- The times at which balances are asked for, under new blocks at times and for addresses.
unfoldable pub query_times : WorkersListener → List (ℕ × List Bytes) → List ℕ
query_times c [] = []
query_times c ((now, addresses) ∷ calls) =
    let later = query_times (check_balances now addresses c).0 calls in
    elim (check_balances now addresses c).1 [ none ↦ later | some asked ↦ now ∷ later ]

-- Each time is more than a minute after the one before it, and the first one after a given time.
abbrev pub IsSpaced : ℕ → List ℕ → Type 0
IsSpaced last [] = Unit
IsSpaced last (time ∷ times) = (last + 60_000_000_000 < time) × IsSpaced time times

IsSpaced-earlier :
    (first last : ℕ) (times : List ℕ) → first ≤ last → IsSpaced last times → IsSpaced first times
IsSpaced-earlier first last [] h spaced = tt
IsSpaced-earlier first last (time ∷ times) h (after, spaced) = (omega (arith, after), spaced)

-- The listener after a call that was due or not.
abbrev checked : WorkersListener → ℕ → Bool → WorkersListener
checked c now due = record c { last_balance_check = if due then now else c.last_balance_check }

abbrev outcome : WorkersListener → ℕ → List (ℕ × List Bytes) → Bool → Option (List Bytes) → List ℕ
outcome c now calls due query =
    let later = query_times (checked c now due) calls in
    elim (if due then query else none) [ none ↦ later | some addresses ↦ now ∷ later ]

outcome-IsSpaced :
    (c : WorkersListener) (now : ℕ) (calls : List (ℕ × List Bytes)) (due : Bool)
    (query : Option (List Bytes))
    → is_due now c ≡ due
    → IsSpaced (checked c now due).last_balance_check (query_times (checked c now due) calls)
    → IsSpaced c.last_balance_check (outcome c now calls due query)
outcome-IsSpaced c now calls false query h spaced = spaced
outcome-IsSpaced c now calls true none h spaced =
    IsSpaced-earlier c.last_balance_check now _ (ground (arith, h)) spaced
outcome-IsSpaced c now calls true (some addresses) h spaced = (ground (arith, h), spaced)

-- If the calls of `NewBlockAvailable` take turns, each at its time and with its addresses: more than a
-- minute lies between two questions for balances, and between the last check before and the first
-- question.
pub query_times-IsSpaced :
    (c : WorkersListener) (calls : List (ℕ × List Bytes))
    → IsSpaced c.last_balance_check (query_times c calls)
unfolding query_times check_balances
query_times-IsSpaced c [] = tt
query_times-IsSpaced c ((now, addresses) ∷ calls) =
    outcome-IsSpaced c now calls (is_due now c) _ refl
      (query_times-IsSpaced (check_balances now addresses c).0 calls)
