-- ===== src/Mq/Channel.antt =====
-- The channel of src/mq/mqqt.go over a row of inserts.
use kaspa_stratum_bridge.Base.{
  ℕ, suc, ◌+◌, ◌<◌, ◌≡◌, refl, sym, ap, ◌∙◌, arith, List, [], ◌∷◌, ◌++◌, map, Option, none, some,
  Result, ok, err, length, length-append, replicate, take,
}
use mathlib.Core.List.{append_assoc, append-nil}
use kaspa_stratum_bridge.Text.{Bytes}
use kaspa_stratum_bridge.Mq.{
  Publishing, Amqp, mq_address, Queue, init_mq_channel, keep_channel, get_channel, as_json,
  publish_on, insertmqqt,
}

-- What an insert is given: the text, the exchange and the routing.
pub record Message : Type 0 where
  pub body : Bytes
  pub exchange : Bytes
  pub routing : Bytes

module _ (amqp : Amqp) where
  open amqp use {Channel, dial}

  abbrev as_publishing : Message → Publishing
  as_publishing m = as_json amqp m.body m.exchange m.routing

  -- A row of inserts and the errors that they return.
  unfoldable pub insert_all : Queue amqp → List Message → Queue amqp × List (Option Bytes)
  insert_all q [] = (q, [])
  insert_all q (m ∷ messages) =
      let (q', e) = insertmqqt amqp q m.body m.exchange m.routing in
      let (q'', rest) = insert_all q' messages in (q'', e ∷ rest)

  -- The channel that comes of the n-th dial.
  abbrev channel_of : Result Bytes (Result Bytes Channel) → Option Channel
  channel_of (err e) = none
  channel_of (ok (err e)) = none
  channel_of (ok (ok channel)) = some channel

  abbrev pub opened : ℕ → Option Channel
  opened n = channel_of (dial n (mq_address amqp))

  kept :
      (q : Queue amqp) (answer : Result Bytes (Result Bytes Channel))
      → keep_channel amqp (elim answer [ err e ↦ (q, err e) | ok a ↦ (q, a) ])
        ≡ record q { instance_channel = channel_of answer }
  unfolding keep_channel
  kept q (err e) = refl
  kept q (ok (err e)) = refl
  kept q (ok (ok channel)) = refl

  -- An insert without a channel dials once.
  dialled_again : Queue amqp → Queue amqp
  dialled_again q = record q {
    instance_channel = opened (length q.dialled);
    dialled = q.dialled ++ mq_address amqp ∷ [];
  }

  get_channel-none :
      (q : Queue amqp)
      → q.instance_channel ≡ none
      → get_channel amqp q ≡ (dialled_again q, opened (length q.dialled))
  unfolding get_channel init_mq_channel dialled_again
  get_channel-none q e =
      rw e (ap (λ r. (r, r.instance_channel)) (kept _ (dial (length q.dialled) (mq_address amqp))))

  insert-none :
      (q : Queue amqp) (m : Message)
      → q.instance_channel ≡ none
      → opened (length q.dialled) ≡ none
      → insertmqqt amqp q m.body m.exchange m.routing
        ≡ (record q { instance_channel = none; dialled = q.dialled ++ mq_address amqp ∷ [] }, none)
  unfolding insertmqqt publish_on dialled_again
  insert-none q m e closed = rw (get_channel-none q e, closed) refl

  -- An insert with a channel, or with one that it opens.
  sent : Queue amqp → Channel → Message → Queue amqp × Option Bytes
  sent q channel m =
      publish_on amqp (record q { instance_channel = some channel }, some channel) (as_publishing m)

  insert-opening :
      (q : Queue amqp) (m : Message) (channel : Channel)
      → q.instance_channel ≡ none
      → opened (length q.dialled) ≡ some channel
      → insertmqqt amqp q m.body m.exchange m.routing
        ≡ sent (record q { dialled = q.dialled ++ mq_address amqp ∷ [] }) channel m
  unfolding insertmqqt sent dialled_again
  insert-opening q m channel e open_now = rw (get_channel-none q e, open_now) refl

  insert-some :
      (q : Queue amqp) (m : Message) (channel : Channel)
      → insertmqqt amqp (record q { instance_channel = some channel }) m.body m.exchange m.routing
        ≡ sent q channel m
  unfolding insertmqqt sent get_channel
  insert-some q m channel = refl

  abbrev on_channel : Channel → List Message → List (Channel × Publishing)
  on_channel channel messages = map (λ m. (channel, as_publishing m)) messages

  -- Published one after another.
  grown : Queue amqp → Channel → List (Channel × Publishing) → Queue amqp
  grown q channel more = record q {
    instance_channel = some channel;
    published = q.published ++ more;
  }

  insert_all-some :
      (q : Queue amqp) (channel : Channel) (messages : List Message)
      → (insert_all (record q { instance_channel = some channel }) messages).0
        ≡ grown q channel (on_channel channel messages)
  unfolding insert_all sent publish_on grown
  insert_all-some q channel [] =
      ap (λ p. record q { instance_channel = some channel; published = p })
        (sym (append-nil q.published))
  insert_all-some q channel (m ∷ messages) =
      let x : Channel × Publishing = (channel, as_publishing m) in
      ap (λ r. (insert_all r.0 messages).0) (insert-some q m channel)
      ∙ insert_all-some (record q { published = q.published ++ x ∷ [] }) channel messages
      ∙ ap (λ p. record q { instance_channel = some channel; published = p })
          (append_assoc q.published (x ∷ []) (on_channel channel messages))

  length-snoc : (xs : List Bytes) (x : Bytes) → length (xs ++ x ∷ []) ≡ length xs + 1
  length-snoc xs x = length-append xs (x ∷ [])

  -- The queue after the first channel and what was published on it.
  opened_queue : Queue amqp → Channel → ℕ → List Message → Queue amqp
  opened_queue q channel failures messages = record {
    instance_channel = some channel;
    dialled = q.dialled ++ replicate (suc failures) (mq_address amqp);
    published = q.published ++ on_channel channel messages;
  }

  insert_all-opening :
      (q : Queue amqp) (channel : Channel) (m : Message) (after : List Message)
      → q.instance_channel ≡ none
      → opened (length q.dialled) ≡ some channel
      → (insert_all q (m ∷ after)).0 ≡ opened_queue q channel 0 (m ∷ after)
  unfolding insert_all sent publish_on grown opened_queue
  insert_all-opening q channel m after e open_now =
      let x : Channel × Publishing = (channel, as_publishing m) in
      let q' = record q {
        dialled = q.dialled ++ mq_address amqp ∷ [];
        published = q.published ++ x ∷ [];
      } in
      ap (λ r. (insert_all r.0 after).0) (insert-opening q m channel e open_now)
      ∙ insert_all-some q' channel after
      ∙ ap (λ p. record q' { instance_channel = some channel; published = p })
          (append_assoc q.published (x ∷ []) (on_channel channel after))

  -- The queue after an insert without a channel.
  failed : Queue amqp → Queue amqp
  failed q = record q { instance_channel = none; dialled = q.dialled ++ mq_address amqp ∷ [] }

  failing :
      (q : Queue amqp)
      → ◌≡◌ {A = Queue amqp × Option Bytes}
          (record q { instance_channel = none; dialled = q.dialled ++ mq_address amqp ∷ [] }, none)
          (failed q, none)
  unfolding failed
  failing q = refl

  opened_queue-failed :
      (q : Queue amqp) (channel : Channel) (failures : ℕ) (messages : List Message)
      → opened_queue (failed q) channel failures messages
        ≡ opened_queue q channel (suc failures) messages
  unfolding opened_queue failed
  opened_queue-failed q channel failures messages =
      ap
        (λ d. record {
          instance_channel = some channel;
          dialled = d;
          published = q.published ++ on_channel channel messages;
        })
        (append_assoc q.dialled (mq_address amqp ∷ []) (replicate (suc failures) (mq_address amqp)))

  later_dial : (q : Queue amqp) (i : ℕ) → length (failed q).dialled + i ≡ length q.dialled + suc i
  unfolding failed
  later_dial q i = omega (arith, length-snoc q.dialled (mq_address amqp))

  -- As long as no channel comes of a dial, each insert dials once more, publishes nothing and returns
  -- no error; the insert whose dial gives a channel, and all after it, publish on that channel and never
  -- dial again. The inserts take turns.
  pub insert_all-retry :
      (q : Queue amqp) (channel : Channel) (before : List Message) (m : Message)
      (after : List Message)
      → q.instance_channel ≡ none
      → ((i : ℕ) → i < length before → opened (length q.dialled + i) ≡ none)
      → opened (length q.dialled + length before) ≡ some channel
      → let (q', errors) = insert_all q (before ++ m ∷ after) in
        (q' ≡ record {
          instance_channel = some channel;
          dialled = q.dialled ++ replicate (suc (length before)) (mq_address amqp);
          published = q.published ++ on_channel channel (m ∷ after);
        })
        × (take (length before) errors ≡ replicate (length before) none)
  unfolding insert_all
  insert_all-retry q channel [] m after e closed open_then =
      let same : length q.dialled ≡ length q.dialled + 0 = omega arith in
      (
        unfold opened_queue in
            (insert_all-opening q channel m after e (ap opened same ∙ open_then)),
        refl,
      )
  insert_all-retry q channel (x ∷ before) m after e closed open_then =
      let same : length q.dialled ≡ length q.dialled + 0 = omega arith in
      let first = insert-none q x e (ap opened same ∙ closed 0 (omega arith)) in
      let rest =
        insert_all-retry (failed q) channel before m after (unfold failed in refl)
          (λ i below. ap opened (later_dial q i) ∙ closed (suc i) (omega arith))
          (ap opened (later_dial q (length before)) ∙ open_then) in
      let messages = before ++ m ∷ after in
      (
        ap (λ r. (insert_all r.0 messages).0) (first ∙ failing q)
            ∙ rest.0
            ∙ unfold opened_queue in (opened_queue-failed q channel (length before) (m ∷ after)),
        ap (λ r. r.1 ∷ take (length before) (insert_all r.0 messages).1) (first ∙ failing q)
            ∙ ap (◌∷◌ none) rest.1,
      )
