-- ===== src/ChainNode/AleoNode/Messages.antt =====
-- The messages that src/chainnode/aleo/aleonode.go takes from the upstream pool.
use kaspa_stratum_bridge.Base.{
  ℕ, zero, suc, ◌≤◌, ◌≡◌, refl, ap, sym, ◌∙◌, List, [], ◌∷◌, ◌++◌, map, All, arith, length,
  replicate, Bool, true, false, Option, none, some,
}
use kaspa_stratum_bridge.Text.{Bytes}
use kaspa_stratum_bridge.Model.{JsonRpcEvent}
use kaspa_stratum_bridge.Gostratum.Worker.{Error}
use kaspa_stratum_bridge.Gostratum.Lines.Framing.{IsPlain, framed, read_lines-framed}
use kaspa_stratum_bridge.ChainNode.Aleo.{
  Reading, received, ended, callback_failed, ReadError, each_line, read_response, listen,
  SessionError, subscribe, authorize,
}
use kaspa_stratum_bridge.ChainNode.AleoNode.{
  AleoNode, Attempt, on_line, start_listening, start_authorizing, start_loop, start_round,
}

-- A read of messages that fits its buffer.
abbrev pub Fits : List Bytes → Type 0
Fits lines = All IsPlain lines × (length (framed lines) ≤ 4096)

abbrev pub concat : List (List Bytes) → List Bytes
concat [] = []
concat (lines ∷ chunks) = lines ++ concat chunks

module _ {S E : Type 0} (cb : S → Bytes → S × Option E) where
  abbrev then_listen : List Reading → S × Option (ReadError E) → S × Option (ReadError E)
  then_listen readings r = elim r.1 [ none ↦ listen cb r.0 readings | some e ↦ (r.0, some e) ]

  then_listen-append :
      (r : S × Option (ReadError E)) (s' : S) (xs ys : List Reading)
      → ((t : S) → listen cb t xs ≡ (s', none) → listen cb t (xs ++ ys) ≡ listen cb s' ys)
      → then_listen xs r ≡ (s', none)
      → then_listen (xs ++ ys) r ≡ listen cb s' ys
  then_listen-append (t, none) s' xs ys later h = later t h
  then_listen-append (t, some e) s' xs ys later h =
      let impossible : some e ≡ none = ap (λ r. r.1) h in cc

  listen-append :
      (s s' : S) (xs ys : List Reading)
      → listen cb s xs ≡ (s', none)
      → listen cb s (xs ++ ys) ≡ listen cb s' ys
  unfolding listen
  listen-append s s' [] ys h = ap (λ r. listen cb r.0 ys) h
  listen-append s s' (x ∷ xs) ys h =
      then_listen-append (read_response cb s x) s' xs ys (λ t. listen-append t s' xs ys) h

  ended-read : (s : S) → read_response cb s (ended []) ≡ (s, none)
  unfolding read_response each_line framed
  ended-read s = rw (read_lines-framed 4096 [] tt (omega arith)) refl

  ends-listen : (n : ℕ) (s : S) → listen cb s (replicate n (ended [])) ≡ (s, none)
  unfolding listen
  ends-listen zero s = refl
  ends-listen (suc n) s = ap (then_listen (replicate n (ended []))) (ended-read s) ∙ ends-listen n s

  -- `Listen` does not return when the pool closes the connection: from wherever it listens, any number
  -- of reads that end with `io.EOF` and bring no data leave it listening, and call nothing.
  pub listen-ended :
      (s s' : S) (readings : List Reading) (n : ℕ)
      → listen cb s readings ≡ (s', none)
      → listen cb s (readings ++ replicate n (ended [])) ≡ (s', none)
  listen-ended s s' readings n h = listen-append s s' readings _ h ∙ ends-listen n s'

  abbrev then_lines : List Bytes → S × Option (ReadError E) → S × Option (ReadError E)
  then_lines lines r = elim r.1 [ none ↦ each_line cb r.0 lines | some e ↦ (r.0, some e) ]

  -- What follows one line.
  abbrev after_line : List Bytes → S × Option E → S × Option (ReadError E)
  after_line lines r = elim r.1 [
    | none ↦ each_line cb r.0 lines
    | some e ↦ (r.0, some (callback_failed e))
  ]

  after_line-append :
      (r : S × Option E) (xs ys : List Bytes)
      → ((t : S) → each_line cb t (xs ++ ys) ≡ then_lines ys (each_line cb t xs))
      → after_line (xs ++ ys) r ≡ then_lines ys (after_line xs r)
  after_line-append (t, none) xs ys later = later t
  after_line-append (t, some e) xs ys later = refl

  each_line-append :
      (s : S) (xs ys : List Bytes) → each_line cb s (xs ++ ys) ≡ then_lines ys (each_line cb s xs)
  unfolding each_line
  each_line-append s [] ys = refl
  each_line-append s (x ∷ xs) ys = after_line-append (cb s x) xs ys (λ t. each_line-append t xs ys)

  then_same :
      (r : S × Option (ReadError E)) (readings : List Reading) (lines : List Bytes)
      → ((t : S) → listen cb t readings ≡ each_line cb t lines)
      → then_listen readings r ≡ then_lines lines r
  then_same (t, none) readings lines later = later t
  then_same (t, some e) readings lines later = refl

  -- How the messages of the pool are spread over the reads does not matter, as long as each read holds
  -- whole messages and fits the buffer: the callback takes them one by one, in their order, up to the
  -- first that it refuses.
  pub listen-framed :
      (s : S) (chunks : List (List Bytes))
      → All Fits chunks
      → listen cb s (map (λ lines. received (framed lines)) chunks) ≡ each_line cb s (concat chunks)
  unfolding listen read_response each_line
  listen-framed s [] fits = refl
  listen-framed s (lines ∷ chunks) ((plain, small), fits) =
      let later = map (λ lines. received (framed lines)) chunks in
      ap (λ ls. then_listen later (each_line cb s ls)) (read_lines-framed 4096 lines plain small)
      ∙ then_same (each_line cb s lines) later (concat chunks) (λ t. listen-framed t chunks fits)
      ∙ sym (each_line-append s lines (concat chunks))

module _ {S : Type 0} (unmarshal_event : Bytes → Option JsonRpcEvent) (block_cb : S → S) where
  abbrev line_cb : AleoNode × S → Bytes → (AleoNode × S) × Option Error
  line_cb = on_line unmarshal_event block_cb

  abbrev rounds : AleoNode × S → List Attempt → AleoNode × S
  rounds = start_loop unmarshal_event block_cb

  -- The attempt, with a connection that is closed after what it has sent.
  abbrev pub closed_after : ℕ → Attempt → Attempt
  closed_after n attempt = record attempt { readings = attempt.readings ++ replicate n (ended []) }

  -- Whether `Listen` returned.
  abbrev finished : (AleoNode × S) × Option (ReadError Error) → (AleoNode × S) × Bool
  finished r = elim r.1 [ none ↦ (r.0, false) | some e ↦ (r.0, true) ]

  start_listening-ended :
      (st : AleoNode × S) (result : Option SessionError) (n : ℕ) (readings : List Reading)
      → (start_listening unmarshal_event block_cb st result readings).1 ≡ false
      → start_listening unmarshal_event block_cb st result (readings ++ replicate n (ended []))
        ≡ start_listening unmarshal_event block_cb st result readings
  unfolding start_listening
  start_listening-ended st (some e) n readings over = refl
  start_listening-ended st none n readings over = same (listen line_cb st readings) refl over
    where
      same :
          (r : (AleoNode × S) × Option (ReadError Error))
          → listen line_cb st readings ≡ r
          → (finished r).1 ≡ false
          → finished (listen line_cb st (readings ++ replicate n (ended [])))
            ≡ finished (listen line_cb st readings)
      same (t, some e) h over = cc
      same (t, none) h over = rw (listen-ended line_cb st t readings n h, h) refl

  authorizing-ended :
      (st : AleoNode × S) (result : Option SessionError) (attempt : Attempt) (n : ℕ)
      → (start_authorizing unmarshal_event block_cb st result attempt).1 ≡ false
      → start_authorizing unmarshal_event block_cb st result (closed_after n attempt)
        ≡ start_authorizing unmarshal_event block_cb st result attempt
  unfolding start_authorizing
  authorizing-ended st (some e) attempt n over = refl
  authorizing-ended (node, s) none attempt n over =
      start_listening-ended _ (authorize attempt.env node.aleoclient attempt.authorized).1 n
        attempt.readings over

  start_round-ended :
      (st : AleoNode × S) (attempt : Attempt) (n : ℕ)
      → (start_round unmarshal_event block_cb st attempt).1 ≡ false
      → start_round unmarshal_event block_cb st (closed_after n attempt)
        ≡ start_round unmarshal_event block_cb st attempt
  unfolding start_round
  start_round-ended (node, s) attempt n over =
      authorizing-ended _
        (subscribe attempt.env node.aleoclient attempt.dialled attempt.subscribed).1 attempt n over

  -- If an attempt still listens at the end of what the pool sent, then it stays so, in the same state,
  -- after the pool has closed the connection: whatever number of reads that end with `io.EOF`
  -- follows, the loop of `Start` makes no later attempt.
  pub start_loop-ended :
      (st : AleoNode × S) (attempt : Attempt) (n : ℕ) (later : List Attempt)
      → (start_round unmarshal_event block_cb st attempt).1 ≡ false
      → start_loop unmarshal_event block_cb st (closed_after n attempt ∷ later)
        ≡ (start_round unmarshal_event block_cb st attempt).0
  unfolding start_loop
  start_loop-ended st attempt n later over =
      let same = start_round-ended st attempt n over in rw (same, over) refl
