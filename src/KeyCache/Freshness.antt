-- ===== src/KeyCache/Freshness.antt =====
-- The cache beside the database, over the interleavings of lookups and mutations in which no
-- invalidation comes between the test of a lookup and its write.
use quotaguard.Prelude.{
  All, All-append, All-imp, All-insert, All-middle, List, Option, Option-cases, Text, [], arith,
  false, inl, inr, lookup, lookup-All, none, refl, some, suc, true, ℕ, ◌++◌, ◌+◌, ◌∙◌, ◌∷◌, ◌≡◌,
  ◌≤◌,
}
use quotaguard.KeyCache.{
  Cache, Entry, Pending, ResolvedKey, begin_resolve, begin_with, fresh_entry, hit, invalidate, load,
  may_write, write_entry,
}
use quotaguard.Prelude.{
  All, All-append, All-imp, All-insert, All-middle, List, Option, Option-cases, Text, [], arith,
  false, inl, inr, lookup, lookup-All, none, refl, some, suc, true, ℕ, ◌++◌, ◌+◌, ◌∙◌, ◌∷◌, ◌≡◌,
  ◌≤◌,
}
use quotaguard.Database.{Database}
use quotaguard.Errors.{ok}
use quotaguard.KeyCache.{
  Cache, Entry, Pending, ResolvedKey, begin_resolve, begin_with, fresh_entry, hit, invalidate, load,
  may_write, write_entry,
}

-- A lookup in flight, with what it read from the database, once it has.
pub record Flight : Type 0 where
  pub pending : Pending
  pub answer : Option (Option ResolvedKey)

-- `dirty` counts the mutations that have committed and not yet invalidated the cache; `writing` are the
-- lookups that have passed their test and not yet written.
pub record World : Type 0 where
  pub db : Database
  pub cache : Cache
  pub flights : List Flight
  pub dirty : ℕ
  pub writing : List Flight

pub data Step (ttl : ℕ) (w : World) : World → Type 0 where
  begin :
      (p : Pending)
      → p.generation ≡ w.cache.generation
      → Step ttl w (record w { flights = record { pending = p; answer = none } ∷ w.flights })
  load_answer :
      (before after : List Flight) (p : Pending) (r : Option ResolvedKey)
      → w.flights ≡ before ++ (record { pending = p; answer = none } ∷ after)
      → load p.digest w.db ≡ ok r
      → Step ttl w
          (record w { flights = before ++ (record { pending = p; answer = some r } ∷ after) })
  refused :
      (before after : List Flight) (p : Pending) (r : Option ResolvedKey)
      → w.flights ≡ before ++ (record { pending = p; answer = some r } ∷ after)
      → may_write ttl p w.cache ≡ false
      → Step ttl w (record w { flights = before ++ after })
  passed :
      (before after : List Flight) (p : Pending) (r : Option ResolvedKey)
      → w.flights ≡ before ++ (record { pending = p; answer = some r } ∷ after)
      → may_write ttl p w.cache ≡ true
      → Step ttl w (record w {
        flights = before ++ after;
        writing = record { pending = p; answer = some r } ∷ w.writing;
      })
  write :
      (before after : List Flight) (p : Pending) (r : Option ResolvedKey)
      → w.writing ≡ before ++ (record { pending = p; answer = some r } ∷ after)
      → Step ttl w (record w { cache = write_entry ttl p r w.cache; writing = before ++ after })
  commit : (db : Database) → Step ttl w (record w { db = db; dirty = w.dirty + 1 })
  commit_aside :
      (db : Database)
      → ((digest : Text) → load digest db ≡ load digest w.db)
      → Step ttl w (record w { db = db })
  invalidate_cache :
      (n : ℕ)
      → w.dirty ≡ suc n
      → w.writing ≡ []
      → Step ttl w (record w { cache = invalidate w.cache; dirty = n })

pub data Reach (ttl : ℕ) (w : World) : World → Type 0 where
  here : Reach ttl w w
  next : {u v : World} → Reach ttl w u → Step ttl u v → Reach ttl w v

-- The database still holds what the entry says.
abbrev pub EntryIsFresh : Database → Text × Entry → Type 0
EntryIsFresh db (digest, e) = load digest db ≡ ok e.resolved

-- A lookup that has read, and can still write, has read what the database holds.
abbrev FlightIsFresh : Database → ℕ → Flight → Type 0
FlightIsFresh db generation f =
    (r : Option ResolvedKey)
    → f.answer ≡ some r
    → f.pending.generation ≡ generation
    → load f.pending.digest db ≡ ok r

-- A lookup that is about to write has read what the database holds.
abbrev WriteIsFresh : Database → Flight → Type 0
WriteIsFresh db f = (r : Option ResolvedKey) → f.answer ≡ some r → load f.pending.digest db ≡ ok r

abbrev FlightIsOld : ℕ → Flight → Type 0
FlightIsOld generation f = f.pending.generation ≤ generation

-- Once every mutation that has committed has invalidated too, all is fresh.
record IsSound (w : World) : Type 0 where
  old : All (FlightIsOld w.cache.generation) w.flights
  entries : w.dirty ≡ 0 → All (EntryIsFresh w.db) w.cache.entries
  flights : w.dirty ≡ 0 → All (FlightIsFresh w.db w.cache.generation) w.flights
  writing : w.dirty ≡ 0 → All (WriteIsFresh w.db) w.writing

write_entry-fresh :
    (ttl : ℕ) (db : Database) (p : Pending) (r : Option ResolvedKey) (c : Cache)
    → All (EntryIsFresh db) c.entries
    → load p.digest db ≡ ok r
    → All (EntryIsFresh db) (write_entry ttl p r c).entries
unfolding write_entry
write_entry-fresh ttl db p r c h f =
    let e : Entry = record { expires_at = p.now + ttl; resolved = r } in
    ground (
      arith,
      f,
      All-insert (EntryIsFresh db) p.digest e [] tt,
      All-insert (EntryIsFresh db) p.digest e c.entries h,
    )

write_entry-generation :
    (ttl : ℕ) (p : Pending) (r : Option ResolvedKey) (c : Cache)
    → (write_entry ttl p r c).generation ≡ c.generation
unfolding write_entry
write_entry-generation ttl p r c = refl

may_write-generation :
    (ttl : ℕ) (p : Pending) (c : Cache) → may_write ttl p c ≡ true → p.generation ≡ c.generation
unfolding may_write
may_write-generation ttl p c h = ground arith

Step-IsSound : {ttl : ℕ} {w v : World} → Step ttl w v → IsSound w → IsSound v
unfolding invalidate
Step-IsSound {w = w} (begin p e) s = record {
  old = (omega arith, s.old);
  entries = s.entries;
  flights = λ z. ((λ r n. cc), s.flights z);
  writing = s.writing;
}
Step-IsSound {w = w} (load_answer before after p r e l) s =
    let (ob, op, oa) = All-middle _ before _ after (rw e at s.old) in
    record {
      old = All-append _ before _ ob (op, oa);
      entries = s.entries;
      flights = λ z.
          let (fb, fp, fa) = All-middle _ before _ after (rw e at s.flights z) in
          All-append _ before _ fb ((λ r' same _. cc), fa);
      writing = s.writing;
    }
Step-IsSound {ttl = ttl} {w = w} (refused before after p r e closed) s =
    let (ob, op, oa) = All-middle _ before _ after (rw e at s.old) in
    record {
      old = All-append _ before after ob oa;
      entries = s.entries;
      flights = λ z.
          let (fb, fp, fa) = All-middle _ before _ after (rw e at s.flights z) in
          All-append _ before after fb fa;
      writing = s.writing;
    }
Step-IsSound {ttl = ttl} {w = w} (passed before after p r e valid) s =
    let (ob, op, oa) = All-middle _ before _ after (rw e at s.old) in
    record {
      old = All-append _ before after ob oa;
      entries = s.entries;
      flights = λ z.
          let (fb, fp, fa) = All-middle _ before _ after (rw e at s.flights z) in
          All-append _ before after fb fa;
      writing = λ z.
          let (fb, fp, fa) = All-middle _ before _ after (rw e at s.flights z) in
          ((λ r' a. fp r' a (may_write-generation ttl p w.cache valid)), s.writing z);
    }
Step-IsSound {ttl = ttl} {w = w} (write before after p r e) s = record {
  old = rw write_entry-generation s.old;
  entries = λ z.
      let (fb, fp, fa) = All-middle _ before _ after (rw e at s.writing z) in
      write_entry-fresh ttl w.db p r w.cache (s.entries z) (fp r refl);
  flights = λ z. rw write_entry-generation (s.flights z);
  writing = λ z.
      let (fb, fp, fa) = All-middle _ before _ after (rw e at s.writing z) in
      All-append _ before after fb fa;
}
Step-IsSound {w = w} (commit db) s = record {
  old = s.old;
  entries = λ z. absurd (omega arith);
  flights = λ z. absurd (omega arith);
  writing = λ z. absurd (omega arith);
}
Step-IsSound {w = w} (commit_aside db same) s = record {
  old = s.old;
  entries = λ z. All-imp _ (λ x h. same x.0 ∙ h) (s.entries z);
  flights = λ z. All-imp _ (λ f h r a g. same f.pending.digest ∙ h r a g) (s.flights z);
  writing = λ z. All-imp _ (λ f h r a. same f.pending.digest ∙ h r a) (s.writing z);
}
Step-IsSound {w = w} (invalidate_cache n e none_writing) s = record {
  old = All-imp w.flights (λ f h. omega arith) s.old;
  entries = λ z. tt;
  flights = λ z. All-imp w.flights (λ f h r a g. absurd (omega arith)) s.old;
  writing = λ z. rw none_writing tt;
}

Reach-IsSound : {ttl : ℕ} {w v : World} → IsSound w → Reach ttl w v → IsSound v
Reach-IsSound s here = s
Reach-IsSound s (next r st) = Step-IsSound st (Reach-IsSound s r)

-- The process at its start: nothing cached, nothing in flight.
abbrev pub started : Database → World
started db = record {
  db = db;
  cache = record { entries = []; generation = 0 };
  flights = [];
  dirty = 0;
  writing = [];
}

started-IsSound : (db : Database) → IsSound (started db)
started-IsSound db = record { old = tt; entries = λ z. tt; flights = λ z. tt; writing = λ z. tt }

-- No lookup is stale: whatever lookups and mutations have run, in any interleaving of their parts in
-- which no invalidation comes between a lookup's test of the generation and its write, once every
-- committed mutation has invalidated the cache, a key that is answered from memory is the one that the
-- database holds.
pub hit_is_fresh :
    (ttl : ℕ) (db : Database) {w : World} (digest : Text) (now : ℕ) (r : Option ResolvedKey)
    → Reach ttl (started db) w
    → w.dirty ≡ 0
    → begin_resolve digest now w.cache ≡ hit r
    → load digest w.db ≡ ok r
unfolding begin_resolve begin_with fresh_entry
hit_is_fresh ttl db {w} digest now r reach z h =
    let fresh = (Reach-IsSound (started-IsSound db) reach).entries z in
    elim (Option-cases (lookup digest w.cache.entries)) [
      | inl none_there ↦ ground arith
      | inr (e, there) ↦
          let kept = lookup-All (EntryIsFresh w.db) digest w.cache.entries e fresh there in
          ground (arith, kept)
    ]
