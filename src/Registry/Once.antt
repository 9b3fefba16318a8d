-- ===== src/Registry/Once.antt =====
-- A script runs at most once for a call, and its NOSCRIPT is repaired by one reload.
use quotaguard.Prelude.{
  All, All-insert, Bool-cases, List, Option, Text, [], arith, false, inl, inr, insert, lookup,
  lookup-All, none, refl, some, sym, true, ℕ, ◌+◌, ◌∙◌, ◌∷◌, ◌≡◌, ◌≤◌, ◌⊎◌,
}
use quotaguard.Errors.{Exception, Result, ok, raise, redis_error}
use quotaguard.Registry.{
  Client, Registry, Server, Weather, World, command, cut, down, eval_act, eval_known, eval_with,
  evalsha, flush_if, is_no_script, known_sha, load_act, register, register_source, registered,
  retried, run_body, run_known, run_script, script_load, send, tick, up,
}

module _ {S R : Type 0} (world : World S R) where
  -- What the documents say of SHA-1: no two scripts have the same.
  abbrev pub NoCollision : Type 0
  NoCollision = (a b : Text) → world.sha1 a ≡ world.sha1 b → a ≡ b

  -- Each script of the server is under its own SHA-1.
  abbrev pub ScriptsMatch : Server S → Type 0
  ScriptsMatch v = All (λ (e : Text × Text). e.0 ≡ world.sha1 e.1) v.scripts

  -- Each name of the registry has the SHA-1 of its file.
  abbrev pub ShasMatch : Registry → Type 0
  ShasMatch g =
      All
        (λ (e : Text × Text). (body : Text) → world.source e.0 ≡ some body → e.1 ≡ world.sha1 body)
        g.shas

  abbrev pub Matches : Client world → Type 0
  Matches c = ShasMatch c.registry × ScriptsMatch c.server

  -- What a call leaves of a store `s`: with an answer, the script's one run; with NOSCRIPT, no run; with
  -- another exception, no run or one.
  abbrev pub Ran : Text → List Text → List Text → S → Result R → S → Type 0
  Ran body keys args s (ok answer) s' = (answer, s') ≡ world.exec body keys args s
  Ran body keys args s (raise e) s' =
      (s' ≡ s) ⊎ ((is_no_script e ≡ false) × (s' ≡ (world.exec body keys args s).1))

  -- What a command leaves of a server `v`: the script ran at most once, and the scripts still match.
  abbrev pub Leaves : Text → List Text → List Text → Server S → Server S → Type 0
  Leaves body keys args v v' =
      ((v'.store ≡ v.store) ⊎ (v'.store ≡ (world.exec body keys args v.store).1))
      × ScriptsMatch v'
      × (v'.commands ≡ v.commands)

  run_body-Leaves :
      (body : Text) (keys args : List Text) (v : Server S) (found : Option Text)
      → ScriptsMatch v
      → ((b : Text) → found ≡ some b → b ≡ body)
      → let (r, v') = run_body world keys args v found in
        Ran body keys args v.store r v'.store × Leaves body keys args v v'
  unfolding run_body
  run_body-Leaves body keys args v none m h = (inl refl, (inl refl, m, refl))
  run_body-Leaves body keys args v (some b) m h = rw (h b refl) (refl, (inr refl, m, refl))

  eval_act-Leaves :
      (body sha : Text) (keys args : List Text) (v : Server S)
      → NoCollision
      → ScriptsMatch v
      → sha ≡ world.sha1 body
      → let (r, v') = eval_act world sha keys args v in
        Ran body keys args v.store r v'.store × Leaves body keys args v v'
  unfolding eval_act
  eval_act-Leaves body sha keys args v apart m e =
      run_body-Leaves body keys args v (lookup sha v.scripts) m (λ b found.
        let own = lookup-All (λ (x : Text × Text). x.0 ≡ world.sha1 x.1) sha v.scripts b m found in
        apart b body (sym own ∙ e))

  Ran-cut :
      (body : Text) (keys args : List Text) (s s' : S)
      → (s' ≡ s) ⊎ (s' ≡ (world.exec body keys args s).1)
      → Ran body keys args s (raise redis_error) s'
  unfolding is_no_script
  Ran-cut body keys args s s' (inl same) = inl same
  Ran-cut body keys args s s' (inr one) = inr (refl, one)

  -- A command that is sent, whatever happens to it.
  send_eval-Ran :
      (body sha : Text) (keys args : List Text) (w : Weather) (v : Server S)
      → NoCollision
      → ScriptsMatch v
      → sha ≡ world.sha1 body
      → let (r, v') = send world (eval_act world sha keys args) w v in
        Ran body keys args v.store r v'.store × ScriptsMatch v' × (v'.commands ≡ v.commands)
  unfolding send flush_if is_no_script
  send_eval-Ran body sha keys args (up true) v apart m e =
      let (ran, left) = eval_act-Leaves body sha keys args (record v { scripts = [] }) apart tt e in
      (ran, left.1, left.2)
  send_eval-Ran body sha keys args (up false) v apart m e =
      let (ran, left) = eval_act-Leaves body sha keys args v apart m e in (ran, left.1, left.2)
  send_eval-Ran body sha keys args down v apart m e = (inl refl, m, refl)
  send_eval-Ran body sha keys args cut v apart m e =
      let (ran, left) = eval_act-Leaves body sha keys args v apart m e in
      (Ran-cut body keys args v.store _ left.0, left.1, left.2)

  evalsha-Ran :
      (body sha : Text) (keys args : List Text) (v : Server S)
      → NoCollision
      → ScriptsMatch v
      → sha ≡ world.sha1 body
      → let (r, v') = evalsha world sha keys args v in
        Ran body keys args v.store r v'.store × ScriptsMatch v' × (v'.commands ≡ v.commands + 1)
  unfolding evalsha command tick
  evalsha-Ran body sha keys args v apart m e =
      send_eval-Ran body sha keys args (world.weather v.commands)
        (record v { commands = v.commands + 1 }) apart m e

  -- What a load leaves: the store as it is, and the scripts under their SHA-1.
  send_load-Matches :
      (body : Text) (w : Weather) (v : Server S)
      → ScriptsMatch v
      → let (r, v') = send world (load_act world body) w v in
        ((sha : Text) → r ≡ ok sha → sha ≡ world.sha1 body)
        × (v'.store ≡ v.store)
        × ScriptsMatch v'
        × (v'.commands ≡ v.commands)
  unfolding send flush_if load_act insert is_no_script
  send_load-Matches body (up true) v m = ((λ sha q. cc), refl, (refl, tt), refl)
  send_load-Matches body (up false) v m =
      ((λ sha q. cc), refl, All-insert _ (world.sha1 body) body v.scripts m refl, refl)
  send_load-Matches body down v m = ((λ sha q. cc), refl, m, refl)
  send_load-Matches body cut v m =
      ((λ sha q. cc), refl, All-insert _ (world.sha1 body) body v.scripts m refl, refl)

  -- A client that works on a store, with how many commands it may have sent since `n`.
  abbrev pub Holds : S → ℕ → Client world → Type 0
  Holds s n c = Matches c × (c.server.store ≡ s) × (c.server.commands ≤ n)

  registered-Holds :
      (name body : Text) (g : Registry) (s : S) (n : ℕ) (r : Result Text) (v : Server S)
      → world.source name ≡ some body
      → ((sha : Text) → r ≡ ok sha → sha ≡ world.sha1 body)
      → ShasMatch g
      → ScriptsMatch v
      → v.store ≡ s
      → v.commands ≤ n
      → let (r', c) = registered world name g (r, v) in
        ((sha : Text) → r' ≡ ok sha → sha ≡ world.sha1 body) × Holds s n c
  unfolding registered
  registered-Holds name body g s n (raise e) v src named gm vm same le =
      (named, ((gm, vm), same, le))
  registered-Holds name body g s n (ok sha) v src named gm vm same le =
      let added =
        All-insert _ name sha g.shas gm
          (λ b q. let same_body : b ≡ body = cc in rw same_body (named sha refl)) in
      (named, ((added, vm), same, le))

  register_body-Holds :
      (name body : Text) (c : Client world) (s : S) (n : ℕ)
      → world.source name ≡ some body
      → Holds s n c
      → let (r, c') = register_source world name c (some body) in
        ((sha : Text) → r ≡ ok sha → sha ≡ world.sha1 body) × Holds s (n + 1) c'
  unfolding register_source script_load command tick
  register_body-Holds name body c s n src ((gm, vm), same, le) =
      let (named, kept, vm', count) =
        send_load-Matches body (world.weather c.server.commands)
          (record c.server { commands = c.server.commands + 1 }) vm in
      registered-Holds name body c.registry s (n + 1) _ _ src named gm vm' (kept ∙ same)
        (omega arith)

  register-Holds :
      (name body : Text) (c : Client world) (s : S) (n : ℕ)
      → world.source name ≡ some body
      → Holds s n c
      → let (r, c') = register world name c in
        ((sha : Text) → r ≡ ok sha → sha ≡ world.sha1 body) × Holds s (n + 1) c'
  unfolding register
  register-Holds name body c s n src h = rw src (register_body-Holds name body c s n src h)

  known_sha-Holds :
      (name body : Text) (c : Client world) (s : S) (n : ℕ) (found : Option Text)
      → world.source name ≡ some body
      → lookup name c.registry.shas ≡ found
      → Holds s n c
      → let (r, c') = known_sha world name c found in
        ((sha : Text) → r ≡ ok sha → sha ≡ world.sha1 body) × Holds s (n + 1) c'
  unfolding known_sha
  known_sha-Holds name body c s n none src q h = register-Holds name body c s n src h
  known_sha-Holds name body c s n (some []) src q h = register-Holds name body c s n src h
  known_sha-Holds name body c s n (some (d ∷ ds)) src q h =
      let named = lookup-All _ name c.registry.shas (d ∷ ds) h.0.0 q body src in
      ((λ sha e. let same : sha ≡ d ∷ ds = cc in same ∙ named), (h.0, h.1, omega arith))

  -- What a try leaves of a client that held the store `s`.
  abbrev pub Tried : Text → List Text → List Text → S → ℕ → Result R × Client world → Type 0
  Tried body keys args s n (r, c) =
      Ran body keys args s r c.server.store × Matches c × (c.server.commands ≤ n)

  NoScript-same :
      (body : Text) (keys args : List Text) (s : S) (e : Exception) (s' : S)
      → is_no_script e ≡ true
      → Ran body keys args s (raise e) s'
      → s' ≡ s
  NoScript-same body keys args s e s' gone (inl same) = same
  NoScript-same body keys args s e s' gone (inr (kept, one)) = cc

  Ran-from :
      (body : Text) (keys args : List Text) (s s' t : S) (r : Result R)
      → s ≡ s'
      → Ran body keys args s r t
      → Ran body keys args s' r t
  Ran-from body keys args s s' t r e h = rw e at h

  eval_with-Tried :
      (body sha : Text) (keys args : List Text) (c : Client world) (s : S) (n : ℕ)
      → NoCollision
      → sha ≡ world.sha1 body
      → Holds s n c
      → Tried body keys args s (n + 1) (eval_with world c keys args sha)
  unfolding eval_with
  eval_with-Tried body sha keys args c s n apart e ((gm, vm), same, le) =
      let (ran, vm', count) = evalsha-Ran body sha keys args c.server apart vm e in
      (Ran-from body keys args c.server.store s _ _ same ran, (gm, vm'), omega arith)

  Holds-Tried :
      (body : Text) (keys args : List Text) (c : Client world) (s : S) (n k : ℕ) (e : Exception)
      → n ≤ k
      → Holds s n c
      → Tried body keys args s k (raise e, c)
  Holds-Tried body keys args c s n k e more (m, same, le) = (inl same, m, omega arith)

  abbrev Named : Text → Result Text × Client world → S → ℕ → Type 0
  Named body (r, c) s n = ((sha : Text) → r ≡ ok sha → sha ≡ world.sha1 body) × Holds s n c

  eval_known-Tried :
      (body : Text) (keys args : List Text) (p : Result Text × Client world) (s : S) (n k : ℕ)
      → NoCollision
      → n + 1 ≡ k
      → Named body p s n
      → Tried body keys args s k (eval_known world keys args p)
  unfolding eval_known
  eval_known-Tried body keys args (raise e, c) s n k apart le (named, h) =
      Holds-Tried body keys args c s n k e (omega arith) h
  eval_known-Tried body keys args (ok sha, c) s n k apart le (named, h) =
      rw (← le) (eval_with-Tried body sha keys args c s n apart (named sha refl) h)

  retried-Tried :
      (name body : Text) (keys args : List Text) (p : Result R × Client world) (s : S) (n k : ℕ)
      → NoCollision
      → world.source name ≡ some body
      → n + 2 ≡ k
      → Tried body keys args s n p
      → Tried body keys args s k (retried world name keys args p)
  unfolding retried
  retried-Tried name body keys args (ok answer, c) s n k apart src le (ran, m, count) =
      (ran, m, omega arith)
  retried-Tried name body keys args (raise e, c) s n k apart src le (ran, m, count) =
      elim (Bool-cases (is_no_script e)) [
        | inl gone ↦ rw gone (
            eval_known-Tried body keys args (register world name c) s (n + 1) k apart (omega arith)
              (register-Holds name body c s n src
                (m, NoScript-same body keys args s e _ gone ran, count)))
        | inr other ↦ rw other (ran, m, omega arith)
      ]

  run_known-Tried :
      (name body : Text) (keys args : List Text) (p : Result Text × Client world) (s : S) (n k : ℕ)
      → NoCollision
      → world.source name ≡ some body
      → n + 3 ≡ k
      → Named body p s n
      → Tried body keys args s k (run_known world name keys args p)
  unfolding run_known
  run_known-Tried name body keys args (raise e, c) s n k apart src le (named, h) =
      Holds-Tried body keys args c s n k e (omega arith) h
  run_known-Tried name body keys args (ok sha, c) s n k apart src le (named, h) =
      retried-Tried name body keys args (eval_with world c keys args sha) s (n + 1) k apart src
        (omega arith) (eval_with-Tried body sha keys args c s n apart (named sha refl) h)

  -- A call of a script whose file can be read, where SHA-1 has no collisions and the registry and the
  -- server's script cache hold each script under its own, sends at most four commands and runs the script
  -- at most once, whichever commands fail, lose their answer or meet an empty script cache. An answer is
  -- that of exactly one run on the store before, a NOSCRIPT error leaves the store as it was, and the
  -- registry and the cache stay as required.
  pub run_script-Tried :
      (name body : Text) (keys args : List Text) (c : Client world)
      → NoCollision
      → world.source name ≡ some body
      → Matches c
      → Tried body keys args c.server.store
          (c.server.commands + 4)
          (run_script world name keys args c)
  unfolding run_script
  run_script-Tried name body keys args c apart src m =
      run_known-Tried name body keys args (known_sha world name c (lookup name c.registry.shas))
        c.server.store (c.server.commands + 1) (c.server.commands + 4) apart src (omega arith)
        (known_sha-Holds name body c c.server.store c.server.commands (lookup name c.registry.shas)
          src refl (m, refl, omega arith))
