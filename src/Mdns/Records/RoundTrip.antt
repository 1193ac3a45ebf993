-- ===== src/Mdns/Records/RoundTrip.antt =====
-- What a receiver reads of the records of a node.
use peers_touch_go.Prelude.{Bool, true, false, [], ◌∷◌, Str}
use peers_touch_go.Prelude.Dict
use peers_touch_go.Prelude.Dict.{Dict}

abbrev or_else : Str → Str → Str
or_else [] d = d
or_else (x ∷ v) d = x ∷ v

abbrev chosen : Bool → Str → Str → Str
chosen true v d = or_else v d
chosen false v d = d
