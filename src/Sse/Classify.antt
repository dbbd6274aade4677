-- ===== src/Sse/Classify.antt =====
-- Which frames become an inbound direct message.
use loraterm.Common.{◌≡◌, ◌⊎◌, true, false, [], some, is_empty}
use loraterm.Text.{Text, chars}
use loraterm.Sse.{DmEvent, Json, is_some, field}

module _ (json : Json) where
  open json use {Value, from_str, from_value}

  -- The value is an inbound direct message `dm`: its direction is `in`, its type `dm` or missing, and
  -- it decodes to `dm`, which has a text and a sender.
  pub record IsInbound (value : Value) (dm : DmEvent) : Type 0 where
    pub direction : field json (chars "direction") value ≡ chars "in"
    pub kind :
        (field json (chars "type") value ≡ chars "dm") ⊎ (field json (chars "type") value ≡ [])
    pub decodes : from_value value ≡ some dm
    pub text : is_some dm.text ≡ true
    pub sender : is_empty dm.peer_pubkey_hex ≡ false
