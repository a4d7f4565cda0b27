-- ===== src/Model.antt =====
-- src/comment/model/stratum.go: the JSON-RPC messages.
use kaspa_stratum_bridge.Base.{ℕ, Bool, List, [], ◌∷◌, Option, none, some, get_elem?, if◌then◌else◌}
use kaspa_stratum_bridge.Text.{Bytes, is_empty, codes}

-- The values of an `any` that the bridge sends or receives; a float is its bit pattern.
mutual
  pub data Value : Type 0 where
    nil : Value
    boolean : Bool → Value
    int : ℕ → Value
    float : ℕ → Value
    text : Bytes → Value
    array : Values → Value
    object : Bytes → Value

  pub data Values : Type 0 where
    end : Values
    value : Value → Values → Values

abbrev pub to_values : List Value → Values
to_values [] = end
to_values (v ∷ vs) = value v (to_values vs)

abbrev pub method_subscribe : Bytes
method_subscribe = codes "mining.subscribe"

abbrev pub method_authorize : Bytes
method_authorize = codes "mining.authorize"

abbrev pub method_submit : Bytes
method_submit = codes "mining.submit"

pub record JsonRpcEvent : Type 0 where
  pub id : Value
  pub version : Bytes
  pub method : Bytes
  pub params : List Value

-- `error` is `none` for the nil slice.
pub record JsonRpcResponse : Type 0 where
  pub id : Value
  pub result : Value
  pub error : Option (List Value)

unfoldable pub new_event : Bytes → Bytes → List Value → JsonRpcEvent
new_event id method params = record {
  id = if is_empty id then nil else text id;
  version = codes "2.0";
  method = method;
  params = params;
}

unfoldable pub new_response : JsonRpcEvent → Value → Option (List Value) → JsonRpcResponse
new_response event results error = record { id = event.id; result = results; error = error }

-- `params[i].(string)`
abbrev pub as_string : Value → Option Bytes
as_string (text s) = some s
as_string v = none

-- The string at a position, if the list is long enough and a string stands there.
abbrev pub string_at : List Value → ℕ → Option Bytes
string_at params i = elim (get_elem? params i) [ none ↦ none | some v ↦ as_string v ]
