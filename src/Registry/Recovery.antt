-- ===== src/Registry/Recovery.antt =====
-- On a server that answers, a call succeeds whatever was flushed before it.
use quotaguard.Prelude.{
  Bool, List, Option, Text, [], ap, arith, false, inl, inr, insert, lookup, lookup-insert, none,
  refl, some, true, ℕ, ◌+◌, ◌∷◌, ◌≡◌, ◌⊎◌,
}
use quotaguard.Errors.{Result, no_script, ok, raise}
use quotaguard.Registry.Once.{Matches, NoCollision, Ran, run_script-Tried}
use quotaguard.Registry.{
  Client, Server, World, command, eval_act, eval_known, eval_with, evalsha, flush_if, is_no_script,
  known_sha, load_act, register, register_source, registered, retried, run_body, run_known,
  run_script, script_load, send, tick, up,
}

module _ {S R : Type 0} (world : World S R) where
  abbrev pub Answered : {A : Type 0} → Result A → Type 0
  Answered (ok answer) = Unit
  Answered (raise e) = ⊥

  -- The client after a load that the server answered.
  abbrev reloaded : Text → Text → Bool → Client world → Client world
  unfolding tick flush_if
  reloaded name body flushed c =
      let v = flush_if world flushed (tick world c.server) in
      record {
        registry = record { shas = insert name (world.sha1 body) c.registry.shas };
        server = record v { scripts = insert (world.sha1 body) body v.scripts };
      }

  register-up :
      (name body : Text) (c : Client world) (flushed : Bool)
      → world.source name ≡ some body
      → world.weather c.server.commands ≡ up flushed
      → register world name c ≡ (ok (world.sha1 body), reloaded name body flushed c)
  unfolding register register_source registered script_load command send tick flush_if load_act
  register-up name body c flushed src w = rw (src, w) refl

  flush_if-commands :
      (flushed : Bool) (v : Server S) → (flush_if world flushed v).commands ≡ v.commands
  unfolding flush_if
  flush_if-commands true v = refl
  flush_if-commands false v = refl

  -- A script that is there answers, if nothing is flushed.
  eval_with-here :
      (sha body : Text) (keys args : List Text) (c : Client world)
      → world.weather c.server.commands ≡ up false
      → lookup sha c.server.scripts ≡ some body
      → Answered (eval_with world c keys args sha).0
  unfolding eval_with evalsha command send tick flush_if eval_act run_body
  eval_with-here sha body keys args c w here = rw (w, here) tt

  -- A command that is answered ran the script, or found no script.
  eval_with-up :
      (sha : Text) (keys args : List Text) (c : Client world) (flushed : Bool)
      → world.weather c.server.commands ≡ up flushed
      → let (r, c') = eval_with world c keys args sha in
        (Answered r ⊎ (r ≡ raise no_script)) × (c'.server.commands ≡ c.server.commands + 1)
  unfolding eval_with evalsha command send tick flush_if eval_act run_body
  eval_with-up sha keys args c flushed w = rw w (ground arith)

  reload-Answered :
      (name body : Text) (keys args : List Text) (c : Client world) (flushed : Bool)
      → world.source name ≡ some body
      → world.weather c.server.commands ≡ up flushed
      → world.weather (c.server.commands + 1) ≡ up false
      → Answered (eval_known world keys args (register world name c)).0
  unfolding eval_known reloaded tick
  reload-Answered name body keys args c flushed src w0 w1 =
      let count = flush_if-commands flushed (tick world c.server) in
      rw (register-up name body c flushed src w0) (
        eval_with-here (world.sha1 body) body keys args (reloaded name body flushed c) (rw count w1)
          (lookup-insert (world.sha1 body) body _))

  retried-Answered :
      (name body : Text) (keys args : List Text) (r : Result R) (c : Client world) (flushed : Bool)
      → world.source name ≡ some body
      → Answered r ⊎ (r ≡ raise no_script)
      → world.weather c.server.commands ≡ up flushed
      → world.weather (c.server.commands + 1) ≡ up false
      → Answered (retried world name keys args (r, c)).0
  unfolding retried is_no_script
  retried-Answered name body keys args (ok answer) c flushed src h w0 w1 = tt
  retried-Answered name body keys args (raise e) c flushed src (inl h) w0 w1 = absurd h
  retried-Answered name body keys args (raise e) c flushed src (inr h) w0 w1 =
      let gone : is_no_script e ≡ true = cc in
      rw gone (reload-Answered name body keys args c flushed src w0 w1)

  -- A call with a SHA in hand, from the `n`th command on.
  try-Answered :
      (name body sha : Text) (keys args : List Text) (c : Client world) (n : ℕ) (f0 f1 : Bool)
      → world.source name ≡ some body
      → c.server.commands ≡ n
      → world.weather n ≡ up f0
      → world.weather (n + 1) ≡ up f1
      → world.weather (n + 2) ≡ up false
      → Answered (retried world name keys args (eval_with world c keys args sha)).0
  try-Answered name body sha keys args c n f0 f1 src at w0 w1 w2 =
      let (tried, count) = eval_with-up sha keys args c f0 (rw at w0) in
      let next : (eval_with world c keys args sha).1.server.commands ≡ n + 1 = omega arith in
      let after : (eval_with world c keys args sha).1.server.commands + 1 ≡ n + 2 = omega arith in
      retried-Answered name body keys args (eval_with world c keys args sha).0
        (eval_with world c keys args sha).1 f1 src tried (rw next w1) (rw after w2)

  -- What the next four commands of a client meet: the server answers each, and its scripts may be
  -- flushed before the first two, but not before the last two.
  abbrev pub Reachable : ℕ → Type 0
  Reachable n =
      ((f : Bool) × (world.weather n ≡ up f))
      × ((f : Bool) × (world.weather (n + 1) ≡ up f))
      × (world.weather (n + 2) ≡ up false)
      × (world.weather (n + 3) ≡ up false)

  run_new-Answered :
      (name body : Text) (keys args : List Text) (c : Client world)
      → world.source name ≡ some body
      → Reachable c.server.commands
      → Answered (run_known world name keys args (register world name c)).0
  unfolding run_known reloaded tick
  run_new-Answered name body keys args c src ((f0, w0), (f1, w1), w2, w3) =
      let n = c.server.commands in
      let count = flush_if-commands f0 (tick world c.server) in
      let second : n + 1 + 1 ≡ n + 2 = omega arith in
      let third : n + 1 + 2 ≡ n + 3 = omega arith in
      rw (register-up name body c f0 src w0) (
        try-Answered name body (world.sha1 body) keys args (reloaded name body f0 c) (n + 1) f1
          false src count w1 (rw second w2) (rw third w3))

  run_known-Answered :
      (name body : Text) (keys args : List Text) (c : Client world) (found : Option Text)
      → world.source name ≡ some body
      → Reachable c.server.commands
      → Answered (run_known world name keys args (known_sha world name c found)).0
  unfolding known_sha run_known
  run_known-Answered name body keys args c none src h = run_new-Answered name body keys args c src h
  run_known-Answered name body keys args c (some []) src h =
      run_new-Answered name body keys args c src h
  run_known-Answered name body keys args c (some (d ∷ ds)) src ((f0, w0), (f1, w1), w2, w3) =
      try-Answered name body (d ∷ ds) keys args c c.server.commands f0 f1 src refl w0 w1 w2

  Answered-Ran :
      (body : Text) (keys args : List Text) (s : S) (r : Result R) (s' : S)
      → Answered r
      → Ran world body keys args s r s'
      → (r ≡ ok (world.exec body keys args s).0) × (s' ≡ (world.exec body keys args s).1)
  Answered-Ran body keys args s (ok answer) s' h ran = (ap (λ p. ok p.0) ran, ap (λ p. p.1) ran)
  Answered-Ran body keys args s (raise e) s' h ran = absurd h

  -- A call of a script whose file can be read, where SHA-1 has no collisions and the registry and the
  -- server's script cache hold each script under its own, returns what one run of the script returns and
  -- leaves what it leaves, if the server answers the next four commands; its cache may have lost the script
  -- at the start, and may be emptied before the first two of them.
  pub run_script-exec :
      (name body : Text) (keys args : List Text) (c : Client world)
      → NoCollision world
      → world.source name ≡ some body
      → Matches world c
      → Reachable c.server.commands
      → let (r, c') = run_script world name keys args c in
        let (answer, store) = world.exec body keys args c.server.store in
        (r ≡ ok answer) × (c'.server.store ≡ store)
  unfolding run_script
  run_script-exec name body keys args c apart src m reach =
      let (ran, _, _) = run_script-Tried world name body keys args c apart src m in
      Answered-Ran body keys args c.server.store _ _
        (run_known-Answered name body keys args c (lookup name c.registry.shas) src reach) ran
