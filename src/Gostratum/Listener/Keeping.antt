-- ===== src/Gostratum/Listener/Keeping.antt =====
-- What every callback of the listener keeps for a worker, a round of a client's loop keeps
-- (src/gostratum/stratum_client.go).
use kaspa_stratum_bridge.Base.{
  ℕ, List, [], ◌∷◌, Bool, true, false, Option, none, some, if◌then◌else◌,
}
use kaspa_stratum_bridge.Text.{Bytes, bytes_beq}
use kaspa_stratum_bridge.Model.{JsonRpcEvent, method_authorize}
use kaspa_stratum_bridge.Gostratum.Worker.{Error}
use kaspa_stratum_bridge.Gostratum.Lines.{read_lines}
use kaspa_stratum_bridge.Gostratum.Listener.{
  Callbacks, LoopError, Read, received, timed_out, failed, after_handler, handle_event,
  handle_unmarshalled, handle_line, handle_lines, read_from_connection, is_deadline, after_read,
  client_round, handler_failed,
}

abbrev pub Handler : Type 0 → Type 0
Handler S = S → ℕ → JsonRpcEvent → S × Option Error

-- An entry of the handler map keeps `P` when it is called for a worker.
abbrev pub EntryKeeps : {S : Type 0} → ℕ → (S → Type 0) → Option (Handler S) → Type 0
EntryKeeps worker P none = Unit
EntryKeeps {S} worker P (some handler) =
    (s : S) (event : JsonRpcEvent) → P s → P (handler s worker event).0

pub record Keeping {S : Type 0} (calls : Callbacks S) (worker : ℕ) (P : S → Type 0) : Type 0 where
  pub handlers : (method : Bytes) → EntryKeeps worker P (calls.handler method)
  pub new_block : (s : S) → P s → P (calls.new_block_available s)
  pub disconnects : (s : S) → P s → P (calls.disconnect s worker)

module _ {S : Type 0} (calls : Callbacks S) where
  -- What `HandleEvent` does with the entry it found.
  abbrev dispatched : S → ℕ → JsonRpcEvent → Option (Handler S) → S × Option Error
  dispatched s worker event entry = elim entry [
    | none ↦ (s, none)
    | some handler ↦ after_handler calls event.method (handler s worker event)
  ]

  -- The handler's error as the loop's.
  abbrev or_failed : S × Option Error → S × Option LoopError
  or_failed r = elim r.1 [ none ↦ (r.0, none) | some e ↦ (r.0, some (handler_failed e)) ]

  abbrev pub then_lines : ℕ → List Bytes → S × Option LoopError → S × Option LoopError
  then_lines worker lines r = elim r.1 [
    | none ↦ handle_lines calls r.0 worker lines
    | some e ↦ (r.0, some e)
  ]

module _ {S : Type 0} (calls : Callbacks S) (worker : ℕ) (P : S → Type 0)
    (keeps : Keeping calls worker P) where
  if_kept : {E : Type 0} (b : Bool) (x y : S × E) → P x.0 → P y.0 → P (if b then x else y).0
  if_kept true x y h k = h
  if_kept false x y h k = k

  after_handler_kept :
      (method : Bytes) (r : S × Option Error) → P r.0 → P (after_handler calls method r).0
  unfolding after_handler
  after_handler_kept method (s, some e) h = h
  after_handler_kept method (s, none) h =
      if_kept (bytes_beq method method_authorize) _ _ (keeps.new_block s h) h

  dispatch_kept :
      (s : S) (event : JsonRpcEvent) (entry : Option (Handler S))
      → EntryKeeps worker P entry
      → P s
      → P (dispatched calls s worker event entry).0
  dispatch_kept s event none k h = h
  dispatch_kept s event (some handler) k h = after_handler_kept event.method _ (k s event h)

  handle_event_kept : (s : S) (event : JsonRpcEvent) → P s → P (handle_event calls s worker event).0
  unfolding handle_event
  handle_event_kept s event h =
      dispatch_kept s event (calls.handler event.method) (keeps.handlers event.method) h

  or_failed_kept : (r : S × Option Error) → P r.0 → P (or_failed calls r).0
  or_failed_kept (t, none) k = k
  or_failed_kept (t, some e) k = k

  handle_unmarshalled_kept :
      (s : S) (event : Option JsonRpcEvent) → P s → P (handle_unmarshalled calls s worker event).0
  unfolding handle_unmarshalled
  handle_unmarshalled_kept s none h = h
  handle_unmarshalled_kept s (some event) h =
      or_failed_kept (handle_event calls s worker event) (handle_event_kept s event h)

  then_lines_kept :
      (lines : List Bytes) (r : S × Option LoopError)
      → P r.0
      → ((t : S) → P t → P (handle_lines calls t worker lines).0)
      → P (then_lines calls worker lines r).0
  then_lines_kept lines (t, none) k later = later t k
  then_lines_kept lines (t, some e) k later = k

  handle_lines_kept : (s : S) (lines : List Bytes) → P s → P (handle_lines calls s worker lines).0
  unfolding handle_lines handle_line
  handle_lines_kept s [] h = h
  handle_lines_kept s (line ∷ lines) h =
      then_lines_kept lines (handle_line calls s worker line)
        (handle_unmarshalled_kept s (calls.unmarshal_event line) h) (λ t. handle_lines_kept t lines)

  read_kept : (s : S) (read : Read) → P s → P (read_from_connection calls s worker read).0
  unfolding read_from_connection
  read_kept s (received bytes) h = handle_lines_kept s (read_lines 1024 bytes) h
  read_kept s timed_out h = h
  read_kept s failed h = h

  after_read_kept :
      (parent_cancelled : Bool) (r : S × Option LoopError)
      → P r.0
      → P (after_read calls worker parent_cancelled r).0
  unfolding after_read
  after_read_kept cancel (s, none) h = if_kept cancel _ _ (keeps.disconnects s h) h
  after_read_kept cancel (s, some e) h =
      if_kept (is_deadline calls e) _ _ h
        (if_kept cancel _ _ (keeps.disconnects s h) (keeps.disconnects s h))

  pub client_round_kept :
      (s : S) (read : Read) (parent_cancelled : Bool)
      → P s
      → P (client_round calls s worker read parent_cancelled).0
  unfolding client_round
  client_round_kept s read cancel h =
      after_read_kept cancel (read_from_connection calls s worker read) (read_kept s read h)
