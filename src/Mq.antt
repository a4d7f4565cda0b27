-- ===== src/Mq.antt =====
-- src/mq/mqqt.go: the records sent to the message queue, and the channel on which they are sent.
pub mod Channel
use kaspa_stratum_bridge.Base.{
  ℕ, ◌-◌, ◌^◌, List, [], ◌∷◌, ◌++◌, Option, none, some, Result, ok, err, length, if◌then◌else◌,
}
use kaspa_stratum_bridge.Base.Int.{ℤ, pos, neg}
use kaspa_stratum_bridge.Text.{Bytes, codes, is_empty, has_prefix}
use kaspa_stratum_bridge.Text.Digits.{syntax_error, range_error, parse_int, format_int}

pub record MqShareRecordData : Type 0 where
  pub message_id : Bytes
  pub app_name : Bytes
  pub app_version : Bytes
  pub recode_type : Bytes
  pub miner_name : Bytes
  pub device_company : Bytes
  pub device_type : Bytes
  pub device_name : Bytes
  pub remote_addr : Bytes
  pub time : ℕ
  pub code : ℕ
  pub target_difficulty : ℕ
  pub params : Bytes

-- What `PublishWithContext` is given beside the context; the two flags are false.
pub record Publishing : Type 0 where
  pub exchange : Bytes
  pub routing : Bytes
  pub content_type : Bytes
  pub body : Bytes

-- The environment of the process, and the library for AMQP: the n-th call of `Dial` fails or connects,
-- and then `Channel` fails or gives a channel; the n-th call of `PublishWithContext` fails or not.
pub record Amqp : Type 1 where
  pub Channel : Type 0
  pub getenv : Bytes → Bytes
  pub dial : ℕ → Bytes → Result Bytes (Result Bytes Channel)
  pub publish : ℕ → Channel → Publishing → Option Bytes

-- The number that `strconv.Atoi` returns, also beside an error.
unfoldable pub atoi_number : Bytes → ℤ
atoi_number s = elim (parse_int s) [
  | ok n ↦ n
  | err syntax_error ↦ pos 0
  | err range_error ↦ if has_prefix s (b'-' ∷ []) then neg (2 ^ 63) else pos (2 ^ 63 - 1)
]

-- A variable of the environment, or what stands for an empty one.
abbrev pub or_default : Bytes → Bytes → Bytes
or_default given default = if is_empty given then default else given

module _ (amqp : Amqp) where
  open amqp use {Channel, getenv, dial, publish}

  -- The address that `InitMQChannel` dials.
  unfoldable pub mq_address : Bytes
  unfolding atoi_number
  mq_address =
      let name = or_default (getenv (codes "MQ_NAME")) (codes "kaspapool") in
      let pwd = or_default (getenv (codes "MQ_PWD")) (codes "tujXiHx2ety6HRErqquML35m") in
      let ip = or_default (getenv (codes "MQ_IP")) (codes "192.168.11.115") in
      let port = or_default (getenv (codes "MQ_PORT")) (codes "5672") in
      codes "amqp://"
      ++ (name
          ++ (codes ":"
              ++ (pwd ++ (codes "@" ++ (ip ++ (codes ":" ++ format_int (atoi_number port)))))))

  -- The package's variable `instance`, and behind it the addresses that were dialled and the calls of
  -- `PublishWithContext`.
  pub record Queue : Type 0 where
    pub instance_channel : Option Channel
    pub dialled : List Bytes
    pub published : List (Channel × Publishing)

  unfoldable pub init_mq_channel : Queue → Queue × Result Bytes Channel
  init_mq_channel q =
      let q' = record q { dialled = q.dialled ++ mq_address ∷ [] } in
      elim (dial (length q.dialled) mq_address) [ err e ↦ (q', err e) | ok answer ↦ (q', answer) ]

  -- `instance, _ = InitMQChannel()`
  unfoldable pub keep_channel : Queue × Result Bytes Channel → Queue
  keep_channel (q, ok channel) = record q { instance_channel = some channel }
  keep_channel (q, err e) = record q { instance_channel = none }

  -- `GetChannel`, whose body runs under `mqlock`.
  unfoldable pub get_channel : Queue → Queue × Option Channel
  unfolding init_mq_channel keep_channel
  get_channel q = elim q.instance_channel [
    | some channel ↦ (q, some channel)
    | none ↦ let q' = keep_channel (init_mq_channel q) in (q', q'.instance_channel)
  ]

  abbrev pub as_json : Bytes → Bytes → Bytes → Publishing
  as_json body exchange routing = record {
    exchange = exchange;
    routing = routing;
    content_type = codes "application/json";
    body = body;
  }

  -- `Insertmqqt` after `GetChannel`: without a channel it only prints.
  unfoldable pub publish_on : Queue × Option Channel → Publishing → Queue × Option Bytes
  publish_on (q, none) publishing = (q, none)
  publish_on (q, some channel) publishing = (
    record q { published = q.published ++ (channel, publishing) ∷ [] },
    publish (length q.published) channel publishing,
  )

  unfoldable pub insertmqqt : Queue → Bytes → Bytes → Bytes → Queue × Option Bytes
  unfolding get_channel publish_on
  insertmqqt q body exchange routing = publish_on (get_channel q) (as_json body exchange routing)
