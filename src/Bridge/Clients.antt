-- ===== src/Bridge/Clients.antt =====
-- The map of clients of src/poolstratum/workers_listener.go, counted: how often a worker stands in it,
-- and how often a new block is told to it.
use kaspa_stratum_bridge.Base.{
  ℕ, ◌+◌, ◌≡◌, refl, sym, ap, ◌∙◌, arith, Bool, true, false, not, ◌&&◌, Bool-cases, inl, inr,
  ==_iff, List, [], ◌∷◌, ◌++◌, All, ◌==◌, if◌then◌else◌, nat_eq,
}
use kaspa_stratum_bridge.Base.GoMap.{insert, delete}
use kaspa_stratum_bridge.Text.{Bytes, bytes_beq}
use kaspa_stratum_bridge.Gostratum.Worker.{WorkerContext}
use kaspa_stratum_bridge.Poolstratum.Listener.Blocks.{select_clients}

abbrev pub one_if : Bool → ℕ
one_if true = 1
one_if false = 0

-- How often a worker stands in a list.
abbrev pub occurrences : ℕ → List ℕ → ℕ
occurrences p [] = 0
occurrences p (q ∷ qs) = one_if (q == p) + occurrences p qs

-- How many entries of the map point to a worker.
abbrev pub entries : ℕ → List (ℕ × ℕ) → ℕ
entries p [] = 0
entries p ((k, q) ∷ m) = one_if (q == p) + entries p m

-- A worker's number is one more than its place among the connections.
abbrev pub IsNumbered : ℕ × ℕ → Type 0
IsNumbered e = e.0 ≡ e.1 + 1

pub occurrences-append :
    (p : ℕ) (xs ys : List ℕ) → occurrences p (xs ++ ys) ≡ occurrences p xs + occurrences p ys
occurrences-append p [] ys = omega arith
occurrences-append p (x ∷ xs) ys = omega (arith, occurrences-append p xs ys)

pub entries-insert :
    (p q : ℕ) (m : List (ℕ × ℕ))
    → All IsNumbered m
    → entries p m ≡ 0
    → entries q (insert (p + 1) p m) ≡ one_if (p == q) + entries q m
unfolding insert
entries-insert p q [] numbered new = refl
entries-insert p q ((k, r) ∷ m) (h, numbered) new = elim (Bool-cases (k == p + 1)) [
  | inl same ↦ absurd (ground (arith, same, h, new))
  | inr other ↦ rw other (omega (arith, entries-insert p q m numbered (ground (arith, new))))
]

pub entries-delete :
    (p q : ℕ) (m : List (ℕ × ℕ))
    → All IsNumbered m
    → entries q (delete (p + 1) m) ≡ (if p == q then 0 else entries q m)
unfolding delete
entries-delete p q [] numbered = ground arith
entries-delete p q ((k, r) ∷ m) (h, numbered) = ground (arith, h, entries-delete p q m numbered)

-- The test of `NewBlockAvailable` for a worker.
unfoldable pub wants_jobs : Bytes → WorkerContext → Bool
wants_jobs chain_type cl = bytes_beq cl.app_name chain_type && not cl.disconnecting

module _ (chain_type : Bytes) (contexts : ℕ → WorkerContext) (p : ℕ) where
  at_worker :
      (q : ℕ) (b : Bool)
      → wants_jobs chain_type (contexts q) ≡ b
      → (if wants_jobs chain_type (contexts p) then one_if (q == p) else 0)
        ≡ (if b then one_if (q == p) else 0)
  at_worker q b e = elim (Bool-cases (q == p)) [
    | inl same ↦ rw same (
        ap (λ r. if wants_jobs chain_type (contexts r) then 1 else 0) (sym ((==_iff q p).0 same))
        ∙ ap (λ r. if r then 1 else 0) e)
    | inr other ↦ rw other (ground arith)
  ]

  -- The loop over the clients chooses a worker as often as it stands in the map, if it wants jobs.
  pub occurrences-select_clients :
      (clients : List (ℕ × ℕ))
      → occurrences p (select_clients chain_type contexts clients).0
        ≡ (if wants_jobs chain_type (contexts p) then entries p clients else 0)
  unfolding select_clients
  occurrences-select_clients [] = ground arith
  occurrences-select_clients ((k, q) ∷ clients) =
      let rest = occurrences-select_clients clients in
      elim (Bool-cases (bytes_beq (contexts q).app_name chain_type)) [
        | inl same ↦ elim (Bool-cases (contexts q).disconnecting) [
          | inl gone ↦
              rw (same, gone)
                (ground
                  (arith, rest, at_worker q false (unfold wants_jobs in (rw (same, gone) refl))))
          | inr stays ↦
              rw (same, stays)
                (ground
                  (arith, rest, at_worker q true (unfold wants_jobs in (rw (same, stays) refl))))
        ]
        | inr other ↦
            rw other
              (ground (arith, rest, at_worker q false (unfold wants_jobs in (rw other refl))))
      ]
