-- ===== src/Poolstratum/Listener/Extranonces.antt =====
-- The extranonces of the connections that src/poolstratum/workers_listener.go accepts.
use kaspa_stratum_bridge.Base.{
  ℕ, zero, suc, ◌+◌, ◌*◌, ◌%◌, ◌^◌, ◌≤◌, ◌<◌, ◌≡◌, ◌≢◌, refl, sym, ap, ◌∙◌, List, [], ◌∷◌, some,
  arith, lt→ltb, get_elem?, ltb, if◌then◌else◌,
}
use kaspa_stratum_bridge.Text.{Bytes, pad_zeros}
use kaspa_stratum_bridge.Text.Digits.{number_from}
use kaspa_stratum_bridge.Text.Digits.Laws.{number_from-hex_fixed}
use kaspa_stratum_bridge.Text.Hex.{format_hex, hex_fixed}
use kaspa_stratum_bridge.Text.Hex.Laws.{pad_zeros-format_hex}
use kaspa_stratum_bridge.Prom.Metrics.{Metrics}
use kaspa_stratum_bridge.Gostratum.Worker.{WorkerContext}
use kaspa_stratum_bridge.Poolstratum.Listener.{
  WorkersListener, new_workers_listener, take_extranonce, on_connect, on_disconnect,
}

-- What the listener is told, in the order in which its lock lets the calls through.
pub data Event : Type 0 where
  join : ℕ → WorkerContext → Event
  leave : WorkerContext → Event

-- The extranonces that it hands out under these calls, the first one first.
unfoldable pub assigned : WorkersListener → Metrics → List Event → List Bytes
assigned c m [] = []
assigned c m (join pointer ctx ∷ events) =
    (on_connect c pointer ctx).1.extranonce ∷ assigned (on_connect c pointer ctx).0 m events
assigned c m (leave ctx ∷ events) =
    assigned (on_disconnect c m ctx).0 (on_disconnect c m ctx).1 events

-- The number of extranonces of a size in bytes.
abbrev pub space : ℕ → ℕ
space size = 256 ^ size

pub record IsListener (size : ℕ) (c : WorkersListener) : Type 0 where
  pub size_kept : c.extranonce_size ≡ size
  pub max_kept : c.max_extranonce + 1 ≡ space size
  pub in_space : c.next_extranonce < space size

pub new_workers_listener-IsListener :
    (size : ℕ) → 0 < size → size ≤ 3 → IsListener size (new_workers_listener size)
unfolding new_workers_listener
new_workers_listener-IsListener zero h l = absurd (omega arith)
new_workers_listener-IsListener (suc zero) h l = record {
  size_kept = refl;
  max_kept = refl;
  in_space = omega arith;
}
new_workers_listener-IsListener (suc (suc zero)) h l = record {
  size_kept = refl;
  max_kept = refl;
  in_space = omega arith;
}
new_workers_listener-IsListener (suc (suc (suc zero))) h l = record {
  size_kept = refl;
  max_kept = refl;
  in_space = omega arith;
}
new_workers_listener-IsListener (suc (suc (suc (suc n)))) h l = absurd (omega arith)

-- One step around the space.
next_number :
    (size n max : ℕ)
    → 0 < size
    → size ≤ 3
    → max + 1 ≡ space size
    → n < space size
    → (if ltb n max then n + 1 else 0) ≡ (n + 1) % space size
next_number zero n max h l e b = absurd (omega arith)
next_number (suc zero) n max h l e b = ground arith
next_number (suc (suc zero)) n max h l e b = ground arith
next_number (suc (suc (suc zero))) n max h l e b = ground arith
next_number (suc (suc (suc (suc size)))) n max h l e b = absurd (omega arith)

pub later_number :
    (size n k : ℕ)
    → 0 < size
    → size ≤ 3
    → ((n + 1) % space size + k) % space size ≡ (n + suc k) % space size
later_number zero n k h l = absurd (omega arith)
later_number (suc zero) n k h l = omega arith
later_number (suc (suc zero)) n k h l = omega arith
later_number (suc (suc (suc zero))) n k h l = omega arith
later_number (suc (suc (suc (suc size)))) n k h l = absurd (omega arith)

first_number : (size n : ℕ) → 0 < size → size ≤ 3 → n < space size → n ≡ (n + 0) % space size
first_number zero n h l b = absurd (omega arith)
first_number (suc zero) n h l b = omega arith
first_number (suc (suc zero)) n h l b = omega arith
first_number (suc (suc (suc zero))) n h l b = omega arith
first_number (suc (suc (suc (suc size)))) n h l b = absurd (omega arith)

pub mod_space-lt : (size n : ℕ) → 0 < size → size ≤ 3 → n % space size < space size
mod_space-lt zero n h l = absurd (omega arith)
mod_space-lt (suc zero) n h l = omega arith
mod_space-lt (suc (suc zero)) n h l = omega arith
mod_space-lt (suc (suc (suc zero))) n h l = omega arith
mod_space-lt (suc (suc (suc (suc size)))) n h l = absurd (omega arith)

-- What one connection gets, and what it leaves for the next.
printed :
    (size n : ℕ)
    → 0 < size
    → size ≤ 3
    → n < space size
    → pad_zeros (size * 2) (format_hex n) ≡ hex_fixed (size * 2) n
printed zero n h l b = absurd (omega arith)
printed (suc zero) n h l b = pad_zeros-format_hex 1 n (omega arith) b
printed (suc (suc zero)) n h l b = pad_zeros-format_hex 3 n (omega arith) b
printed (suc (suc (suc zero))) n h l b = pad_zeros-format_hex 5 n (omega arith) b
printed (suc (suc (suc (suc size)))) n h l b = absurd (omega arith)

pub record Connected (size n : ℕ) (r : WorkersListener × WorkerContext) : Type 0 where
  pub extranonce_text : r.1.extranonce ≡ hex_fixed (size * 2) n
  pub next_number_left : r.0.next_extranonce ≡ (n + 1) % space size
  pub listener : IsListener size r.0

pub on_connect-Connected :
    (size : ℕ) (c : WorkersListener) (pointer : ℕ) (ctx : WorkerContext)
    → 0 < size
    → size ≤ 3
    → IsListener size c
    → Connected size c.next_extranonce (on_connect c pointer ctx)
unfolding on_connect take_extranonce
on_connect-Connected size c pointer ctx h l i =
    let next = next_number size c.next_extranonce c.max_extranonce h l i.max_kept i.in_space in
    let bound = mod_space-lt size (c.next_extranonce + 1) h l in
    rw (i.size_kept, lt→ltb 0 size h)
      (record {
        extranonce_text = printed size c.next_extranonce h l i.in_space;
        next_number_left = next;
        listener = record { size_kept = refl; max_kept = i.max_kept; in_space = rw next bound };
      })

pub on_disconnect-IsListener :
    (size : ℕ) (c : WorkersListener) (m : Metrics) (ctx : WorkerContext)
    → IsListener size c
    → IsListener size (on_disconnect c m ctx).0
unfolding on_disconnect
on_disconnect-IsListener size c m ctx i = record {
  size_kept = i.size_kept;
  max_kept = i.max_kept;
  in_space = i.in_space;
}

assigned-from :
    (size : ℕ) (c : WorkersListener) (m : Metrics) (events : List Event) (k : ℕ) (e : Bytes)
    → 0 < size
    → size ≤ 3
    → IsListener size c
    → get_elem? (assigned c m events) k ≡ some e
    → e ≡ hex_fixed (size * 2) ((c.next_extranonce + k) % space size)
unfolding assigned on_disconnect
assigned-from size c m [] k e h l i at = cc
assigned-from size c m (join pointer ctx ∷ events) zero e h l i at =
    let step = on_connect-Connected size c pointer ctx h l i in
    let first : e ≡ (on_connect c pointer ctx).1.extranonce = cc in
    first
    ∙ (step.extranonce_text
        ∙ ap (hex_fixed (size * 2)) (first_number size c.next_extranonce h l i.in_space))
assigned-from size c m (join pointer ctx ∷ events) (suc k) e h l i at =
    let step = on_connect-Connected size c pointer ctx h l i in
    let rest = assigned-from size (on_connect c pointer ctx).0 m events k e h l step.listener at in
    rest
    ∙ ap (hex_fixed (size * 2)) (
        ap (λ n. (n + k) % space size) step.next_number_left
        ∙ later_number size c.next_extranonce k h l)
assigned-from size c m (leave ctx ∷ events) k e h l i at =
    assigned-from size (on_disconnect c m ctx).0 (on_disconnect c m ctx).1 events k e h l
      (on_disconnect-IsListener size c m ctx i) at

-- From its start, whatever workers come and go, the listener gives the k-th connection the hexadecimal
-- digits of k modulo the space of extranonces, two digits for each of its bytes (of which the server
-- admits at most three).
pub assigned_lem :
    (size : ℕ) (m : Metrics) (events : List Event) (k : ℕ) (e : Bytes)
    → 0 < size
    → size ≤ 3
    → get_elem? (assigned (new_workers_listener size) m events) k ≡ some e
    → e ≡ hex_fixed (size * 2) (k % space size)
assigned_lem size m events k e h l at =
    assigned-from size (new_workers_listener size) m events k e h l
      (new_workers_listener-IsListener size h l) at
    ∙ ap (λ n. hex_fixed (size * 2) (n % space size)) (unfold new_workers_listener in (omega arith))

-- The numbers of two connections less than a round apart.
pub apart_numbers :
    (size i j : ℕ)
    → 0 < size
    → size ≤ 3
    → i < j
    → j < i + space size
    → i % space size ≢ j % space size
apart_numbers zero i j h l a b e = absurd (omega arith)
apart_numbers (suc zero) i j h l a b e = absurd (omega (arith, e))
apart_numbers (suc (suc zero)) i j h l a b e = absurd (omega (arith, e))
apart_numbers (suc (suc (suc zero))) i j h l a b e = absurd (omega (arith, e))
apart_numbers (suc (suc (suc (suc size)))) i j h l a b e = absurd (omega arith)

pub space_digits : (size : ℕ) → size ≤ 3 → space size ≡ 16 ^ (size * 2)
space_digits zero l = refl
space_digits (suc zero) l = refl
space_digits (suc (suc zero)) l = refl
space_digits (suc (suc (suc zero))) l = refl
space_digits (suc (suc (suc (suc size)))) l = absurd (omega arith)

-- Two connections less than a round of the space apart get different extranonces, whatever workers
-- come and go, if the size is one that the server admits.
pub assigned_differ :
    (size : ℕ) (m : Metrics) (events : List Event) (i j : ℕ) (e f : Bytes)
    → 0 < size
    → size ≤ 3
    → i < j
    → j < i + space size
    → get_elem? (assigned (new_workers_listener size) m events) i ≡ some e
    → get_elem? (assigned (new_workers_listener size) m events) j ≡ some f
    → e ≢ f
assigned_differ size m events i j e f h l apart near at_i at_j same =
    let digits = space_digits size l in
    let read = λ (n : ℕ).
      number_from-hex_fixed 0 (size * 2) (n % space size) (rw⁻¹ digits (mod_space-lt size n h l)) in
    let texts =
      sym (assigned_lem size m events i e h l at_i)
      ∙ (same ∙ assigned_lem size m events j f h l at_j) in
    apart_numbers size i j h l apart near (omega (arith, read i, read j, ap (number_from 0) texts))
