-- ===== src/Gostratum/Handle/Authorize.antt =====
-- What mining.authorize (src/gostratum/worker_handle.go) leaves in a worker.
use kaspa_stratum_bridge.Base.{
  ℕ, ◌/◌, sym, ◌≡◌, refl, ◌⊎◌, inl, inr, Bool, true, false, List, [], ◌∷◌, Option, none, some,
  Result, ok, length, ltb, if◌then◌else◌, arith, ◌++◌, ◌≢◌, ap, ◌∙◌, Bool-cases,
}
use kaspa_stratum_bridge.Text.{Bytes, bytes_beq, codes, has_prefix, is_empty}
use kaspa_stratum_bridge.Model.{Value, boolean, JsonRpcEvent, new_response, string_at}
use kaspa_stratum_bridge.Mq.{MqShareRecordData}
use kaspa_stratum_bridge.ChainNode.{chain_type_kaspa}
use kaspa_stratum_bridge.ChainNode.Wallet.{
  clean_wallet, wallet_regex_matches, slice_67, clean_wallet-coerced, coerced, WalletFault,
}
use kaspa_stratum_bridge.Gostratum.Worker.{
  Env, WorkerContext, Error, malformed_event, session_record,
}
use kaspa_stratum_bridge.Gostratum.Worker.Writes.{Frame, reply-Frame, send-Frame}
use kaspa_stratum_bridge.Gostratum.Handle.{
  pool_address, record_login, publish_login, send_extranonce, after_reply, authorize_as,
  authorize_address, handle_authorize,
}

coerced-pool_address :
    (decode_address : Bytes → Bool) → coerced decode_address pool_address ≡ ok pool_address
unfolding has_prefix wallet_regex_matches slice_67
coerced-pool_address decode = elim (Bool-cases (decode pool_address)) [
  | inl e ↦ rw e refl
  | inr e ↦ rw e refl
]

if_ok :
    (b : Bool) (x y : Bytes)
    → ◌≡◌ {A = Result WalletFault Bytes} (if b then ok x else ok y) (ok (if b then x else y))
if_ok true x y = refl
if_ok false x y = refl

-- The pool's address is kept or cut to itself, so cleaning it neither fails nor panics.
clean_pool_address :
    (decode_address : Bytes → Bool) (chain_type : Bytes)
    → clean_wallet decode_address chain_type pool_address
      ≡ some (ok (if bytes_beq chain_type chain_type_kaspa then pool_address else []))
clean_pool_address decode chain_type =
    clean_wallet-coerced decode chain_type pool_address
    ∙ ap (λ r. some (if bytes_beq chain_type chain_type_kaspa then r else ok []))
        (coerced-pool_address decode)
    ∙ ap some (if_ok (bytes_beq chain_type chain_type_kaspa) pool_address [])

abbrev named : WorkerContext → Bytes → Bytes → Bytes → WorkerContext
named sc address minername devicename = record sc {
  wallet_addr = address;
  miner_name = minername;
  device_name = devicename;
}

-- The record of a login under a miner's and a device's name.
abbrev pub login_record : Env → WorkerContext → Bytes → Bytes → MqShareRecordData
login_record env sc minername devicename = record {
  message_id = env.uuid;
  app_name = sc.app_name;
  app_version = sc.app_version;
  recode_type = codes "Login";
  miner_name = minername;
  device_company = sc.device_company;
  device_type = sc.device_type;
  device_name = devicename;
  remote_addr = sc.remote_addr;
  time = env.now / 1_000_000;
  code = 0;
  target_difficulty = 0;
  params = [];
}

-- What authorizing leaves of a worker's identity and of the records published for it.
pub record Authorized (env : Env) (sc : WorkerContext) (minername devicename : Bytes)
    (sc' : WorkerContext) (result : Option Error) : Type 0 where
  pub wallet :
      sc'.wallet_addr ≡ (if bytes_beq sc.app_name chain_type_kaspa then pool_address else [])
  pub miner : sc'.miner_name ≡ minername
  pub device : sc'.device_name ≡ devicename
  pub login :
      result ≡ none
      → (json : Bytes) × (env.marshal_record (login_record env sc minername devicename) ≡ some json)
        × (sc'.published ≡ sc.published ++ json ∷ [])
  pub no_login : result ≢ none → sc'.published ≡ sc.published

-- The fields that the statement is about.
abbrev Keeps : WorkerContext → WorkerContext → Type 0
Keeps sc sc' =
    (sc'.wallet_addr ≡ sc.wallet_addr)
    × (sc'.miner_name ≡ sc.miner_name)
    × (sc'.device_name ≡ sc.device_name)
    × (sc'.published ≡ sc.published)
    × ((uuid : Bytes) (now : ℕ) (kind : Bytes)
        → session_record uuid now sc' kind ≡ session_record uuid now sc kind)

Frame-Keeps : (sc sc' : WorkerContext) → Frame sc sc' → Keeps sc sc'
unfolding session_record
Frame-Keeps sc sc' f = (
  ap (λ c. c.wallet_addr) f,
  ap (λ c. c.miner_name) f,
  ap (λ c. c.device_name) f,
  ap (λ c. c.published) f,
  λ uuid now kind. ap (λ c. session_record uuid now c kind) f,
)

abbrev address_for : WorkerContext → Bytes
address_for sc = if bytes_beq sc.app_name chain_type_kaspa then pool_address else []

module _ (env : Env) (sc : WorkerContext) (minername devicename : Bytes) where
  publish_login-Authorized :
      (mid : WorkerContext) (json : Option Bytes)
      → env.marshal_record (login_record env sc minername devicename) ≡ json
      → Keeps (named sc (address_for sc) minername devicename) mid
      → let (sc', result) = publish_login env mid json in
        Authorized env sc minername devicename sc' result
  unfolding publish_login
  publish_login-Authorized mid none h k = record {
    wallet = k.0;
    miner = k.1;
    device = k.2;
    login = λ e. cc;
    no_login = λ _. k.3;
  }
  publish_login-Authorized mid (some json) h k = record {
    wallet = k.0;
    miner = k.1;
    device = k.2;
    login = λ _. (json, h, ap (λ l. l ++ json ∷ []) k.3);
    no_login = λ failed. absurd (failed refl);
  }

  send_extranonce-Keeps :
      (mid : WorkerContext)
      → Keeps mid (if is_empty mid.extranonce then mid else send_extranonce env mid)
  unfolding send_extranonce
  send_extranonce-Keeps mid =
      elim (is_empty mid.extranonce)
        as (λ b. Keeps mid (if b then mid else send_extranonce env mid)) [
          | true ↦ (refl, refl, refl, refl, λ uuid now kind. refl)
          | false ↦ Frame-Keeps mid _ (send-Frame env mid _)
        ]

  after_reply-Authorized :
      (mid : WorkerContext) (result : Option Error)
      → Keeps (named sc (address_for sc) minername devicename) mid
      → let (sc', result') = after_reply env mid result in
        Authorized env sc minername devicename sc' result'
  unfolding after_reply record_login session_record
  after_reply-Authorized mid (some e) k = record {
    wallet = k.0;
    miner = k.1;
    device = k.2;
    login = λ h. cc;
    no_login = λ _. k.3;
  }
  after_reply-Authorized mid none k =
      let s = send_extranonce-Keeps mid in
      let same = λ (uuid : Bytes) (now : ℕ) (kind : Bytes). s.4 uuid now kind ∙ k.4 uuid now kind in
      publish_login-Authorized _ _
        (sym (ap env.marshal_record (same env.uuid env.now (codes "Login"))))
        (s.0 ∙ k.0, s.1 ∙ k.1, s.2 ∙ k.2, s.3 ∙ k.3, same)

  authorize_as-Authorized :
      (event : JsonRpcEvent)
      → let (sc', result) = authorize_as env sc event (address_for sc) minername devicename in
        Authorized env sc minername devicename sc' result
  unfolding authorize_as
  authorize_as-Authorized event =
      let start = named sc (address_for sc) minername devicename in
      after_reply-Authorized _ _
        (Frame-Keeps start _ (reply-Frame env start (new_response event (boolean true) none)))

pub two_params :
    (params : List Value) (s : Bytes) → string_at params 1 ≡ some s → ltb (length params) 2 ≡ false
two_params [] s h = cc
two_params (v ∷ []) s h = cc
two_params (v ∷ w ∷ params) s h = ground arith

module _ (env : Env) (decode_address : Bytes → Bool) (sc : WorkerContext)
    (event : JsonRpcEvent) where
  -- An event without two strings in front is refused and changes nothing.
  pub handle_authorize_malformed :
      (string_at event.params 0 ≡ none) ⊎ (string_at event.params 1 ≡ none)
      → handle_authorize env decode_address sc event ≡ (sc, some malformed_event)
  unfolding handle_authorize
  handle_authorize_malformed h = ground arith

  authorized_equation :
      (minername devicename : Bytes)
      → string_at event.params 0 ≡ some minername
      → string_at event.params 1 ≡ some devicename
      → handle_authorize env decode_address sc event
        ≡ authorize_as env sc event (address_for sc) minername devicename
  unfolding handle_authorize authorize_address
  authorized_equation minername devicename h₀ h₁ = rw (
    two_params event.params devicename h₁,
    h₀,
    h₁,
    authorize_address,
    clean_pool_address decode_address sc.app_name,
  )

  -- With two strings in front the worker takes them for its miner and device, and its wallet is the
  -- pool's own address if the application calls itself kaspa and empty if not, whatever the miner
  -- sent. If no error is returned, the record of a login under these names is published in its encoding,
  -- and otherwise nothing is published.
  pub handle_authorize-Authorized :
      (minername devicename : Bytes)
      → string_at event.params 0 ≡ some minername
      → string_at event.params 1 ≡ some devicename
      → let (sc', result) = handle_authorize env decode_address sc event in
        Authorized env sc minername devicename sc' result
  handle_authorize-Authorized minername devicename h₀ h₁ =
      rw (authorized_equation minername devicename h₀ h₁)
        (authorize_as-Authorized env sc minername devicename event)
