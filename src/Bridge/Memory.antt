-- ===== src/Bridge/Memory.antt =====
-- Lists, maps and the memory of the bridge: what holds of every element, and stays so.
use kaspa_stratum_bridge.Base.{ℕ, Bool-cases, inl, inr, List, [], ◌∷◌, ◌++◌, All, ◌==◌, nat_eq}
use kaspa_stratum_bridge.Base.GoMap.{insert, delete}
use kaspa_stratum_bridge.Text.{Bytes, bytes_beq}
use kaspa_stratum_bridge.Gostratum.Worker.{WorkerContext}
use kaspa_stratum_bridge.Poolstratum.Listener.Blocks.{select_clients}
use kaspa_stratum_bridge.Bridge.{set_at}

pub All-map {ℓ κ μ} :
    {A : Type ℓ} (P : A → Type κ) (Q : A → Type μ) (xs : List A)
    → ((x : A) → P x → Q x)
    → All P xs
    → All Q xs
All-map P Q [] f h = tt
All-map P Q (x ∷ xs) f (h, t) = (f x h, All-map P Q xs f t)

-- A list without one of its elements.
pub All-middle {ℓ κ} :
    {A : Type ℓ} (P : A → Type κ) (xs : List A) (y : A) (ys : List A)
    → All P (xs ++ y ∷ ys)
    → All P (xs ++ ys)
All-middle P [] y ys (h, t) = t
All-middle P (x ∷ xs) y ys (h, t) = (h, All-middle P xs y ys t)

pub All-insert :
    (P : ℕ × ℕ → Type 0) (k v : ℕ) (m : List (ℕ × ℕ)) → P (k, v) → All P m → All P (insert k v m)
unfolding insert
All-insert P k v [] h a = (h, tt)
All-insert P k v ((j, w) ∷ m) h (b, a) = elim (Bool-cases (j == k)) [
  | inl same ↦ rw same (h, a)
  | inr other ↦ rw other (b, All-insert P k v m h a)
]

pub All-delete : (P : ℕ × ℕ → Type 0) (k : ℕ) (m : List (ℕ × ℕ)) → All P m → All P (delete k m)
unfolding delete
All-delete P k [] a = tt
All-delete P k ((j, w) ∷ m) (b, a) = elim (Bool-cases (j == k)) [
  | inl same ↦ rw same (All-delete P k m a)
  | inr other ↦ rw other (b, All-delete P k m a)
]

-- A write to memory keeps what holds everywhere, if it holds of what is written.
pub set_at_kept {ℓ κ} :
    {A : Type ℓ} (P : A → Type κ) (p : ℕ) (x : A) (f : ℕ → A)
    → P x
    → ((q : ℕ) → P (f q))
    → (q : ℕ) → P (set_at p x f q)
unfolding set_at
set_at_kept P p x f h k q = elim (Bool-cases (q == p)) [
  | inl same ↦ rw same h
  | inr other ↦ rw other (k q)
]

pub select_clients-All :
    (P : ℕ → Type 0) (chain_type : Bytes) (contexts : ℕ → WorkerContext) (clients : List (ℕ × ℕ))
    → All (λ e. P e.1) clients
    → All P (select_clients chain_type contexts clients).0
unfolding select_clients
select_clients-All P chain_type contexts [] a = tt
select_clients-All P chain_type contexts ((idx, p) ∷ clients) (h, a) =
    let rest = select_clients-All P chain_type contexts clients a in
    elim (Bool-cases (bytes_beq (contexts p).app_name chain_type)) [
      | inl same ↦ elim (Bool-cases (contexts p).disconnecting) [
        | inl gone ↦ rw (same, gone) rest
        | inr stays ↦ rw (same, stays) (h, rest)
      ]
      | inr other ↦ rw other rest
    ]
