-- ===== src/Server/Routes.antt =====
-- station/frame/core/server/options.go: the options of a server, and WithRouters, which puts the name of a
-- family of routes before their paths. A subserver's function is a value of `F`, a channel is left out.
use peers_touch_go.Prelude.{ℕ, false, List, [], ◌∷◌, ◌++◌, map, Str, ◌≡◌, ◌≢◌, arith, refl}
use peers_touch_go.Prelude.Dict
use peers_touch_go.Prelude.Dict.{Dict}
use peers_touch_go.Prelude.TextLaws.{occurs}
use peers_touch_go.Server.{Handler}

pub record Options (H F : Type 0) : Type 0 where
  pub address : Str
  pub timeout : ℕ
  pub metadata : Dict Str
  pub handlers : List (Handler H)
  pub sub_servers : Dict F

pub record Routers (H : Type 0) : Type 0 where
  pub name : Str
  pub handlers : List (Handler H)

-- The path of a handler in the family of a name.
abbrev pub prefixed_path : Str → Str → Str
prefixed_path [] path = path
prefixed_path (c ∷ name) path = b'/' ∷ (c ∷ name) ++ path

module _ {H : Type 0} where
  abbrev pub prefixed : Str → Handler H → Handler H
  prefixed name h = record h { path = prefixed_path name h.path }

  unfoldable pub route_all : List (Routers H) → List (Handler H) → List (Handler H)
  route_all [] handlers = handlers
  route_all (r ∷ l) handlers = route_all l (handlers ++ map (prefixed r.name) r.handlers)

  module _ {F : Type 0} where
    abbrev pub with_address : Str → Options H F → Options H F
    with_address a o = record o { address = a }

    abbrev pub with_timeout : ℕ → Options H F → Options H F
    with_timeout t o = record o { timeout = t }

    abbrev pub with_metadata : Dict Str → Options H F → Options H F
    with_metadata m o = record o { metadata = m }

    abbrev pub with_handlers : List (Handler H) → Options H F → Options H F
    with_handlers l o = record o { handlers = o.handlers ++ l }

    unfoldable pub with_routers : List (Routers H) → Options H F → Options H F
    unfolding route_all
    with_routers l o = record o { handlers = route_all l o.handlers }

    unfoldable pub with_sub_server : Str → F → Options H F → Options H F
    with_sub_server name f o = record o { sub_servers = Dict.put name f o.sub_servers }

-- A path that begins with a slash, as those of the routes do.
abbrev pub IsPath : Str → Type 0
IsPath [] = ⊥
IsPath (c ∷ p) = c ≡ b'/'

cut_at_slash :
    (a b p q : Str)
    → occurs b'/' a ≡ false
    → occurs b'/' b ≡ false
    → IsPath p
    → IsPath q
    → a ++ p ≡ b ++ q
    → (a ≡ b) × (p ≡ q)
cut_at_slash [] [] p q f g h k e = (refl, e)
cut_at_slash [] (y ∷ b) [] q f g h k e = elim h [ ]
cut_at_slash [] (y ∷ b) (x ∷ p) q f g h k e = absurd (ground arith)
cut_at_slash (x ∷ a) [] p [] f g h k e = elim k [ ]
cut_at_slash (x ∷ a) [] p (y ∷ q) f g h k e = absurd (ground arith)
cut_at_slash (x ∷ a) (y ∷ b) p q f g h k e = ground (arith, cut_at_slash a b p q)

-- Where the names of two families are not empty and have no slash, and the paths of two routes in them both
-- begin with a slash, the routes meet at one path only where the families have the same name and the routes
-- the same path in it.
pub prefixed_path_unique :
    (a b p q : Str)
    → a ≢ []
    → b ≢ []
    → occurs b'/' a ≡ false
    → occurs b'/' b ≡ false
    → IsPath p
    → IsPath q
    → prefixed_path a p ≡ prefixed_path b q
    → (a ≡ b) × (p ≡ q)
prefixed_path_unique [] b p q n m f g h k e = absurd (n refl)
prefixed_path_unique (x ∷ a) [] p q n m f g h k e = absurd (m refl)
prefixed_path_unique (x ∷ a) (y ∷ b) p q n m f g h k e =
    cut_at_slash (x ∷ a) (y ∷ b) p q f g h k (ground arith)
