-- ===== src/Server/Native.antt =====
-- station/frame/core/plugin/native/server/native.go: Handle and Start of the server over net/http. A mux is
-- the list of its routes; a path that it has already makes it panic. A request is a path and a method;
-- patterns that end with a slash, which stand for all paths below them, are not modelled.
use peers_touch_go.Prelude.{
  Bool, true, false, List, [], ◌∷◌, ◌++◌, Option, none, some, Str, str_eq, any, if◌then◌else◌,
  Bool-cases, inl, inr, ◌≡◌, ap, arith, refl,
}
use peers_touch_go.Server.{Handler}

-- The kinds of functions of net/http, and any other.
pub data Function (F : Type 0) : Type 0 where
  http_handler handler_func context_handler_func other : F → Function F

pub record Route (F : Type 0) : Type 0 where
  pub path : Str
  pub method : Str
  pub function : F

pub record NativeServer (F : Type 0) : Type 0 where
  pub mux : List (Route F)
  pub handlers : List (Handler (Function F))

pub data Handled (F : Type 0) : Type 0 where
  handled unsupported panicked : NativeServer F → Handled F

-- What a mux answers: nothing at the path, another method, or the call of a function.
pub data Answer (F : Type 0) : Type 0 where
  not_found method_not_allowed : Answer F
  called : F → Answer F

abbrev pub is_nil : {A : Type 0} → List A → Bool
is_nil [] = true
is_nil (x ∷ l) = false

module _ {F : Type 0} where
  abbrev pub function_of : Function F → Option F
  function_of (http_handler f) = some f
  function_of (handler_func f) = some f
  function_of (context_handler_func f) = some f
  function_of (other f) = none

  abbrev pub has_path : Str → Route F → Bool
  has_path path r = str_eq r.path path

  -- Each wrapper is called on a mux that is new, and the last of these takes the place of the mux.
  abbrev pub after_wrappers : List (Function F) → List (Route F) → List (Route F)
  after_wrappers [] mux = mux
  after_wrappers (w ∷ ws) mux = []

  abbrev pub with_function : Handler (Function F) → NativeServer F → Option F → Handled F
  with_function h s none = unsupported s
  with_function h s (some f) =
      if any (has_path h.path) s.mux
      then panicked s
      else handled (record {
        mux =
            after_wrappers h.wrappers
              (record { path = h.path; method = h.method; function = f } ∷ s.mux);
        handlers = s.handlers ++ h ∷ [];
      })

  unfoldable pub handle : Handler (Function F) → NativeServer F → Handled F
  unfolding any str_eq
  handle h s = with_function h s (function_of h.handler)

  abbrev pub and_handle : Handled F → (NativeServer F → Handled F) → Handled F
  and_handle (handled s) next = next s
  and_handle (unsupported s) next = unsupported s
  and_handle (panicked s) next = panicked s

  -- The loop of `Start`, over the handlers that there are before it; each is put there once more.
  unfoldable pub handle_all : List (Handler (Function F)) → NativeServer F → Handled F
  unfolding handle
  handle_all [] s = handled s
  handle_all (h ∷ l) s = and_handle (handle h s) (handle_all l)

  unfoldable pub serve : List (Route F) → Str → Str → Answer F
  unfolding str_eq
  serve [] path method = not_found
  serve (r ∷ l) path method =
      let rest = serve l path method in
      if str_eq r.path path
      then (if str_eq r.method method then called r.function else method_not_allowed)
      else rest

  handled-mux : (s t : NativeServer F) → handled s ≡ handled t → s.mux ≡ t.mux
  handled-mux s t h = let e : s ≡ t = cc in ap (λ (r : NativeServer F). r.mux) e

  after_wrappers-nil :
      (ws : List (Function F)) (mux : List (Route F))
      → is_nil ws ≡ false
      → after_wrappers ws mux ≡ []
  after_wrappers-nil [] mux h = absurd (ground arith)
  after_wrappers-nil (w ∷ ws) mux h = refl

  with_function-wrapped :
      (h : Handler (Function F)) (s t : NativeServer F) (o : Option F)
      → is_nil h.wrappers ≡ false
      → with_function h s o ≡ handled t
      → t.mux ≡ []
  with_function-wrapped h s t none w e = absurd (ground arith)
  with_function-wrapped h s t (some f) w e = elim (Bool-cases (any (has_path h.path) s.mux)) [
    | inl y ↦ absurd (let z : panicked s ≡ handled t = rw y at e in cc)
    | inr n ↦ rw (← (handled-mux _ t (rw n at e))) (after_wrappers-nil h.wrappers _ w)
  ]

  -- After a handler with a wrapper was put into the mux, a request of any path and method is not found,
  -- that of this handler too, and those of all before it.
  pub serve-handle :
      (h : Handler (Function F)) (s t : NativeServer F) (path method : Str)
      → is_nil h.wrappers ≡ false
      → handle h s ≡ handled t
      → serve t.mux path method ≡ not_found
  unfolding handle serve
  serve-handle h s t path method w e =
      rw (with_function-wrapped h s t (function_of h.handler) w e) refl
