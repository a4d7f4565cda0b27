-- ===== src/Gostratum/Listener/Rounds.antt =====
-- The loop that reads a client (src/gostratum/stratum_client.go) over its reads.
use mathlib.Core.List.{append_assoc}
use kaspa_stratum_bridge.Base.{
  ℕ, ◌≤◌, ◌≡◌, refl, ap, ◌∙◌, sym, List, [], ◌∷◌, ◌++◌, All, All-append, arith, length,
  length-append, Option, none, some, Bool, true, false, if◌then◌else◌,
}
use kaspa_stratum_bridge.Text.{Bytes}
use kaspa_stratum_bridge.Gostratum.Lines.Framing.{IsPlain, framed, read_lines-framed}
use kaspa_stratum_bridge.Gostratum.Listener.{
  Callbacks, LoopError, Read, received, handle_line, handle_lines, read_from_connection,
  is_deadline, after_read, client_round, client_loop, cancelled,
}

framed-append : (xs ys : List Bytes) → framed (xs ++ ys) ≡ framed xs ++ framed ys
unfolding framed
framed-append [] ys = refl
framed-append (x ∷ xs) ys =
    ap (λ t. x ++ b'\n' ∷ t) (framed-append xs ys)
    ∙ sym (append_assoc x (b'\n' ∷ framed xs) (framed ys))

module _ {S : Type 0} (calls : Callbacks S) (worker : ℕ) where
  -- What follows a line.
  abbrev then_lines : List Bytes → S × Option LoopError → S × Option LoopError
  then_lines lines r = elim r.1 [
    | none ↦ handle_lines calls r.0 worker lines
    | some e ↦ (r.0, some e)
  ]

  then_lines-append :
      (r : S × Option LoopError) (s' : S) (xs ys : List Bytes)
      → ((t : S)
          → handle_lines calls t worker xs ≡ (s', none)
          → handle_lines calls t worker (xs ++ ys) ≡ handle_lines calls s' worker ys)
      → then_lines xs r ≡ (s', none)
      → then_lines (xs ++ ys) r ≡ handle_lines calls s' worker ys
  then_lines-append (t, none) s' xs ys later h = later t h
  then_lines-append (t, some e) s' xs ys later h =
      let impossible : some e ≡ none = ap (λ r. r.1) h in cc

  -- After lines that are handled with no error, the others are handled from the state that they leave.
  handle_lines-append :
      (s s' : S) (xs ys : List Bytes)
      → handle_lines calls s worker xs ≡ (s', none)
      → handle_lines calls s worker (xs ++ ys) ≡ handle_lines calls s' worker ys
  unfolding handle_lines
  handle_lines-append s s' [] ys h = ap (λ r. handle_lines calls r.0 worker ys) h
  handle_lines-append s s' (x ∷ xs) ys h =
      then_lines-append (handle_line calls s worker x) s' xs ys
        (λ t. handle_lines-append t s' xs ys) h

  round_framed :
      (s : S) (xs : List Bytes) (parent_cancelled : Bool)
      → All IsPlain xs
      → length (framed xs) ≤ 1024
      → client_round calls s worker (received (framed xs)) parent_cancelled
        ≡ after_read calls worker parent_cancelled (handle_lines calls s worker xs)
  unfolding client_round read_from_connection
  round_framed s xs cancel h l =
      ap (λ ls. after_read calls worker cancel (handle_lines calls s worker ls))
        (read_lines-framed 1024 xs h l)

  -- What follows a round.
  abbrev then_rounds : List (Read × Bool) → S × Option LoopError → S × Option LoopError
  then_rounds rounds r = elim r.1 [
    | none ↦ client_loop calls r.0 worker rounds
    | some e ↦ (r.0, some e)
  ]

  -- How the client's messages are spread over its reads does not matter as long as each read holds
  -- whole messages: two reads are handled as the one read of both, if the first one's messages are
  -- handled with no error and the server is not being shut down.
  pub client_loop_merge :
      (s s' : S) (xs ys : List Bytes) (rounds : List (Read × Bool))
      → All IsPlain xs
      → All IsPlain ys
      → length (framed (xs ++ ys)) ≤ 1024
      → handle_lines calls s worker xs ≡ (s', none)
      → client_loop calls s worker
          ((received (framed xs), false) ∷ (received (framed ys), false) ∷ rounds)
        ≡ client_loop calls s worker ((received (framed (xs ++ ys)), false) ∷ rounds)
  unfolding client_loop after_read
  client_loop_merge s s' xs ys rounds hx hy l first =
      let sizes = ap length (framed-append xs ys) ∙ length-append (framed xs) (framed ys) in
      let one =
        round_framed s xs false hx (omega (arith, sizes))
        ∙ ap (after_read calls worker false) first in
      let two = round_framed s' ys false hy (omega (arith, sizes)) in
      let both =
        round_framed s (xs ++ ys) false (All-append IsPlain xs ys hx hy) l
        ∙ ap (after_read calls worker false) (handle_lines-append s s' xs ys first) in
      ap (then_rounds ((received (framed ys), false) ∷ rounds)) one
      ∙ ap (then_rounds rounds) (two ∙ sym both)

  module _ (P : S → Type 0) (disconnected : (s : S) → P (calls.disconnect s worker)) where
    return_disconnects :
        (s : S) (late parent_cancelled : Bool) (e' e : LoopError)
        → let r : S × Option LoopError =
            (if late
              then (s, none)
              else if parent_cancelled
              then (calls.disconnect s worker, some cancelled)
              else (calls.disconnect s worker, some e')) in
          r.1 ≡ some e → P r.0
    return_disconnects s true cancel e' e q = cc
    return_disconnects s false true e' e q = disconnected s
    return_disconnects s false false e' e q = disconnected s

    after_read-disconnect :
        (parent_cancelled : Bool) (r : S × Option LoopError) (e : LoopError)
        → (after_read calls worker parent_cancelled r).1 ≡ some e
        → P (after_read calls worker parent_cancelled r).0
    unfolding after_read
    after_read-disconnect true (s, none) e q = disconnected s
    after_read-disconnect false (s, none) e q = cc
    after_read-disconnect cancel (s, some e') e q =
        return_disconnects s (is_deadline calls e') cancel e' e q

    then_rounds-disconnect :
        (rounds : List (Read × Bool)) (r : S × Option LoopError) (e : LoopError)
        → ((s : S)
            → (client_loop calls s worker rounds).1 ≡ some e
            → P (client_loop calls s worker rounds).0)
        → (r.1 ≡ some e → P r.0)
        → (then_rounds rounds r).1 ≡ some e
        → P (then_rounds rounds r).0
    then_rounds-disconnect rounds (s, none) e later now q = later s q
    then_rounds-disconnect rounds (s, some e') e later now q = now q

    -- Whenever the loop that reads a client returns, whatever was read, it has disconnected the client
    -- last: what holds after every `Disconnect` of the worker holds then.
    pub client_loop-disconnect :
        (s : S) (rounds : List (Read × Bool)) (e : LoopError)
        → (client_loop calls s worker rounds).1 ≡ some e
        → P (client_loop calls s worker rounds).0
    unfolding client_loop client_round
    client_loop-disconnect s [] e q = cc
    client_loop-disconnect s ((read, cancel) ∷ rounds) e q =
        then_rounds-disconnect rounds (client_round calls s worker read cancel) e
          (λ t. client_loop-disconnect t rounds e)
          (after_read-disconnect cancel (read_from_connection calls s worker read) e) q
