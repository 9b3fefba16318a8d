-- ===== src/Registry.antt =====
-- app/redis_client.py: the registry of the Lua scripts, over a Redis server whose script cache may be
-- emptied, and which may not answer, before any of the commands. The files of app/lua, SHA-1 and what a
-- script does are parameters.
pub mod Once
pub mod Recovery
mod Tests
use quotaguard.Prelude.{
  Bool, List, Option, Text, [], false, if◌then◌else◌, insert, lookup, none, some, true, ℕ, ◌+◌, ◌∷◌,
}
use quotaguard.Errors.{Exception, Result, no_script, ok, raise, redis_error, runtime_error}

-- What happens to one command: the server answers, its script cache emptied before or not; it does not
-- get the command; or it runs the command and its answer is lost.
pub data Weather : Type 0 where
  up : Bool → Weather
  down cut : Weather

pub record Server (S : Type 0) : Type 0 where
  pub scripts : List (Text × Text)
  pub store : S
  pub commands : ℕ

-- `_shas`
pub record Registry : Type 0 where
  pub shas : List (Text × Text)

unfoldable pub is_no_script : Exception → Bool
is_no_script no_script = true
is_no_script _ = false

-- The world that the client works in.
pub record World (S R : Type 0) : Type 0 where
  pub source : Text → Option Text
  pub sha1 : Text → Text
  pub exec : Text → List Text → List Text → S → R × S
  pub weather : ℕ → Weather

module _ {S R : Type 0} (world : World S R) where
  unfoldable pub tick : Server S → Server S
  tick v = record v { commands = v.commands + 1 }

  unfoldable pub flush_if : Bool → Server S → Server S
  flush_if true v = record v { scripts = [] }
  flush_if false v = v

  -- A command under what happens to it.
  unfoldable pub send :
      {A : Type 0} → (Server S → Result A × Server S) → Weather → Server S → Result A × Server S
  send act (up flushed) v = act (flush_if flushed v)
  send act down v = (raise redis_error, v)
  send act cut v = (raise redis_error, (act v).1)

  unfoldable pub command :
      {A : Type 0} → (Server S → Result A × Server S) → Server S → Result A × Server S
  command act v = send act (world.weather v.commands) (tick v)

  unfoldable pub load_act : Text → Server S → Result Text × Server S
  load_act body v =
      (ok (world.sha1 body), record v { scripts = insert (world.sha1 body) body v.scripts })

  -- `script_load`
  unfoldable pub script_load : Text → Server S → Result Text × Server S
  script_load body v = command (load_act body) v

  unfoldable pub run_body : List Text → List Text → Server S → Option Text → Result R × Server S
  run_body keys args v none = (raise no_script, v)
  run_body keys args v (some body) =
      let (answer, store) = world.exec body keys args v.store in
      (ok answer, record v { store = store })

  unfoldable pub eval_act : Text → List Text → List Text → Server S → Result R × Server S
  eval_act sha keys args v = run_body keys args v (lookup sha v.scripts)

  unfoldable pub evalsha : Text → List Text → List Text → Server S → Result R × Server S
  evalsha sha keys args v = command (eval_act sha keys args) v

  -- The registry and the server that it talks to.
  pub record Client : Type 0 where
    pub registry : Registry
    pub server : Server S

  unfoldable pub registered : Text → Registry → Result Text × Server S → Result Text × Client
  registered name g (raise e, v) = (raise e, record { registry = g; server = v })
  registered name g (ok sha, v) =
      (ok sha, record { registry = record { shas = insert name sha g.shas }; server = v })

  unfoldable pub register_source : Text → Client → Option Text → Result Text × Client
  register_source name c none = (raise runtime_error, c)
  register_source name c (some body) = registered name c.registry (script_load body c.server)

  unfoldable pub register : Text → Client → Result Text × Client
  register name c = register_source name c (world.source name)

  -- `self._shas.get(name) or await self.register(name)`: an empty text counts as none.
  unfoldable pub known_sha : Text → Client → Option Text → Result Text × Client
  known_sha name c (some (d ∷ ds)) = (ok (d ∷ ds), c)
  known_sha name c _ = register name c

  unfoldable pub eval_with : Client → List Text → List Text → Text → Result R × Client
  eval_with c keys args sha =
      let (r, v) = evalsha sha keys args c.server in (r, record c { server = v })

  unfoldable pub eval_known : List Text → List Text → Result Text × Client → Result R × Client
  eval_known keys args (raise e, c) = (raise e, c)
  eval_known keys args (ok sha, c) = eval_with c keys args sha

  -- The handler of NoScriptError: one reload, and one more try.
  unfoldable pub retried : Text → List Text → List Text → Result R × Client → Result R × Client
  retried name keys args (ok answer, c) = (ok answer, c)
  retried name keys args (raise e, c) =
      if is_no_script e then eval_known keys args (register name c) else (raise e, c)

  unfoldable pub run_known : Text → List Text → List Text → Result Text × Client → Result R × Client
  run_known name keys args (raise e, c) = (raise e, c)
  run_known name keys args (ok sha, c) = retried name keys args (eval_with c keys args sha)

  unfoldable pub run_script : Text → List Text → List Text → Client → Result R × Client
  run_script name keys args c =
      run_known name keys args (known_sha name c (lookup name c.registry.shas))

  unfoldable pub register_all : List Text → Client → Result (Unit {0}) × Client
  register_all [] c = (ok tt, c)
  register_all (name ∷ names) c =
      let (sha, c') = register name c in
      elim sha [ raise e ↦ (raise e, c') | ok s ↦ register_all names c' ]

  -- `load_all` over the stems of the directory's scripts, sorted, if the directory is there
  unfoldable pub load_all : Option (List Text) → Client → Result (Unit {0}) × Client
  load_all none c = (ok tt, c)
  load_all (some names) c = register_all names c

-- The registry of the process, beside its connection pool.
pub record Process : Type 0 where
  pub has_client : Bool
  pub shared : Option Registry

abbrev pub no_shas : Registry
no_shas = record { shas = [] }

unfoldable pub get_registry : Process → Registry × Process
get_registry p = elim p.shared [
  | some g ↦ (g, p)
  | none ↦ (no_shas, record { has_client = true; shared = some no_shas })
]

-- `close`: an error of the pool's own close is logged.
unfoldable pub close : Process → Process
close p = record { has_client = false; shared = none }
