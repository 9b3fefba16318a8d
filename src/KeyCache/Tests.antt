-- ===== src/KeyCache/Tests.antt =====
-- One lookup of the demo key, from an empty cache to a hit.
use quotaguard.Prelude.{
  Option, [], arith, codes, insert, lookup, refl, some, text_eq, true, ◌<◌, ◌≡◌, ◌≤◌,
}
use quotaguard.KeyCache.{
  Cache, Pending, ResolvedKey, begin_resolve, begin_with, finish_resolve, fresh_entry, hit,
  invalidate, load, load_row, may_write, miss, resolved_key, with_plan, write_entry,
}
use quotaguard.Prelude.{
  Option, [], arith, codes, insert, lookup, refl, some, text_eq, true, ◌<◌, ◌≡◌, ◌≤◌,
}
use quotaguard.Errors.{ok}
use quotaguard.KeyCache.{
  Cache, Pending, ResolvedKey, begin_resolve, begin_with, finish_resolve, fresh_entry, hit,
  invalidate, load, load_row, may_write, miss, resolved_key, with_plan, write_entry,
}
use quotaguard.KeyCache.Freshness.{
  Reach, begin, here, hit_is_fresh, load_answer, next, passed, started, write,
}
use quotaguard.KeyCache.Bounds.{cached_until}
use quotaguard.Database.{key_by_hash, plan_by_id}
use quotaguard.Samples.{demo_db, demo_key, free_plan}

abbrev lookup_at_7 : Pending
lookup_at_7 = record { digest = codes "hash_1"; now = 7; generation = 0 }

abbrev demo_resolved : Option ResolvedKey
demo_resolved = some (resolved_key demo_key free_plan)

demo_load : load (codes "hash_1") demo_db ≡ ok demo_resolved
unfolding load load_row with_plan key_by_hash plan_by_id text_eq
demo_load = refl

abbrev cached_at_7 : Cache
cached_at_7 = write_entry 5 lookup_at_7 demo_resolved (started demo_db).cache

demo_writes : may_write 5 lookup_at_7 (started demo_db).cache ≡ true
unfolding may_write
demo_writes = refl

demo-Reach : Reach 5 (started demo_db) (record (started demo_db) { cache = cached_at_7 })
demo-Reach =
    next
      (next
        (next (next here (begin lookup_at_7 refl))
          (load_answer [] [] lookup_at_7 demo_resolved refl demo_load))
        (passed [] [] lookup_at_7 demo_resolved refl demo_writes))
      (write [] [] lookup_at_7 demo_resolved refl)

-- An invalidation between the test and the write does not keep the entry out: the key that was revoked
-- in between is still found, as it was.
raced_write :
    let c = (started demo_db).cache in
    (may_write 5 lookup_at_7 c ≡ true)
    × (begin_resolve (codes "hash_1") 8 (write_entry 5 lookup_at_7 demo_resolved (invalidate c))
        ≡ hit demo_resolved)
unfolding may_write write_entry invalidate begin_resolve begin_with fresh_entry lookup insert
    text_eq
raced_write = (refl, refl)

memory_hit : begin_resolve (codes "hash_1") 11 cached_at_7 ≡ hit demo_resolved
unfolding write_entry begin_resolve begin_with fresh_entry lookup insert text_eq
memory_hit = refl

cached_until_example :
    let c' = finish_resolve 5 lookup_at_7 demo_resolved (started demo_db).cache in
    (11 < 12 → begin_resolve (codes "hash_1") 11 c' ≡ hit demo_resolved)
    × (12 ≤ 11
        → begin_resolve (codes "hash_1") 11 c'
          ≡ miss (record { digest = codes "hash_1"; now = 11; generation = 0 }))
cached_until_example =
    cached_until 5 lookup_at_7 demo_resolved (started demo_db).cache 11 (omega arith) refl

hit_is_fresh_example : load (codes "hash_1") demo_db ≡ ok demo_resolved
hit_is_fresh_example =
    hit_is_fresh 5 demo_db (codes "hash_1") 11 demo_resolved demo-Reach refl memory_hit
