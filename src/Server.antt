-- ===== src/Server.antt =====
-- station/frame/core/server: handlers and their options (server.go, options.go), and the states of a
-- subserver (subserver.go). Wrappers and the functions that handle requests are values of a type `H`.
pub mod Routes
pub mod Base
pub mod Hertz
pub mod Native
mod Tests
use peers_touch_go.Prelude.{Bool, true, false, List, [], ◌∷◌, ◌++◌, Str, codes, if◌then◌else◌}

pub data Status : Type 0 where
  unset stopped starting running stopping error : Status

abbrev pub is_running : Status → Bool
is_running running = true
is_running s = false

-- `httpHandler`
pub record Handler (H : Type 0) : Type 0 where
  pub name : Str
  pub method : Str
  pub path : Str
  pub handler : H
  pub wrappers : List H

pub record HandlerOptions (H : Type 0) : Type 0 where
  pub method : Str
  pub wrappers : List H

module _ {H : Type 0} where
  abbrev pub with_method : Str → HandlerOptions H → HandlerOptions H
  with_method m o = record o { method = m }

  abbrev pub with_wrappers : List H → HandlerOptions H → HandlerOptions H
  with_wrappers ws o = record o { wrappers = ws }

  abbrev pub configure :
      List (HandlerOptions H → HandlerOptions H) → HandlerOptions H → HandlerOptions H
  configure [] o = o
  configure (f ∷ l) o = configure l (f o)

  -- The name and the sub-path of the URL, the function, and the options in the order in which they are
  -- given.
  unfoldable pub new_handler :
      Str → Str → H → List (HandlerOptions H → HandlerOptions H) → Handler H
  new_handler name sub_path handler opts =
      let config = configure opts (record { method = []; wrappers = [] }) in
      record {
        name = name;
        method = config.method;
        path = sub_path;
        handler = handler;
        wrappers = config.wrappers;
      }
