-- ===== src/Calls/Taps.antt =====
-- The taps of `ParentLink` of src/south.ts, which the parent asks for. A tap is known by its number, and
-- what is asked of the local herdr and sent to the parent is appended to `effects`.
use herdr_web_broker.Common.{
  ℕ, String, Bool, true, false, Option, some, none, List, [], ◌∷◌, ◌++◌, map, if◌then◌else◌,
}
use herdr_web_broker.Common.IdMap.{IdMap, at, put, without}

pub data Effect : Type 0 where
  asks_tap : (sub_id : ℕ) → (session : String) → Effect
  closes_tap : (sub_id : ℕ) → Effect
  acknowledges : (sub_id : ℕ) → Effect
  refuses : (sub_id : ℕ) → (code : String) → Effect
  sends_event sends_closed : (sub_id : ℕ) → Effect

pub record TapLink : Type 0 where
  pub taps : IdMap (Unit {0})
  -- whether the socket to the parent is open
  pub is_open : Bool
  pub effects : List Effect

pub data Happening : Type 0 where
  sub : (sub_id : ℕ) → (session : String) → Happening
  unsub opened_tap herdr_event tap_closed : (sub_id : ℕ) → Happening
  failed_tap : (sub_id : ℕ) → (code : String) → Happening
  opens closes : Happening

abbrev does : Effect → TapLink → TapLink
does e l = record l { effects = l.effects ++ e ∷ [] }

-- `#send`, which drops what cannot be sent now.
abbrev send : Effect → TapLink → TapLink
send e l = if l.is_open then does e l else l

unfoldable pub unsub_found : Option (Unit {0}) → ℕ → TapLink → TapLink
unsub_found none id l = l
unsub_found (some t) id l = does (closes_tap id) (record l { taps = without id l.taps })

abbrev pub close_all : IdMap (Unit {0}) → List Effect
close_all = map (λ t. closes_tap t.0)

-- A tap is stored when it is opened, whatever has become of the tunnel and of the tap in the meantime.
unfoldable pub step : TapLink → Happening → TapLink
step l (sub id session) = does (asks_tap id session) l
step l (unsub id) = unsub_found (at id l.taps) id l
step l (opened_tap id) = send (acknowledges id) (record l { taps = put id tt l.taps })
step l (failed_tap id code) = send (refuses id code) l
step l (herdr_event id) = send (sends_event id) l
step l (tap_closed id) = send (sends_closed id) (record l { taps = without id l.taps })
step l opens = record l { is_open = true }
step l closes = record l { taps = []; is_open = false; effects = l.effects ++ close_all l.taps }

unfoldable pub run : TapLink → List Happening → TapLink
run l [] = l
run l (h ∷ hs) = run (step l h) hs
