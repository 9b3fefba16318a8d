-- ===== src/KeyCache/Bounds.antt =====
-- The lifetime of the cache's entries.
use quotaguard.Prelude.{
  List, Option, Text, [], arith, insert, lookup, some, text_eq_self, ℕ, ◌+◌, ◌<◌, ◌∷◌, ◌≡◌, ◌≤◌,
}
use quotaguard.KeyCache.{
  Cache, Entry, Pending, ResolvedKey, begin_resolve, begin_with, finish_resolve, fresh_entry, hit,
  may_write, miss, write_entry,
}

lookup-insert_self :
    (k : Text) (e : Entry) (d : List (Text × Entry)) → lookup k (insert k e d) ≡ some e
unfolding lookup insert
lookup-insert_self k e [] = rw (text_eq_self k)
lookup-insert_self k e ((j, w) ∷ d) = ground (arith, text_eq_self k, lookup-insert_self k e d)

-- In the cache that a lookup leaves, if its lifetime is not 0 and no invalidation has come since it
-- began: a lookup of the same secret is answered from memory with what it found, exactly until the
-- lifetime has passed since it began.
pub cached_until :
    (ttl : ℕ) (p : Pending) (resolved : Option ResolvedKey) (c : Cache) (later : ℕ)
    → 0 < ttl
    → p.generation ≡ c.generation
    → let c' = finish_resolve ttl p resolved c in
      (later < p.now + ttl → begin_resolve p.digest later c' ≡ hit resolved)
      × (p.now + ttl ≤ later
          → begin_resolve p.digest later c'
            ≡ miss (record { digest = p.digest; now = later; generation = c.generation }))
unfolding finish_resolve may_write write_entry begin_resolve begin_with fresh_entry
cached_until ttl p resolved c later ht hg =
    let e : Entry = record { expires_at = p.now + ttl; resolved = resolved } in
    (
      λ h.
          ground (arith, lookup-insert_self p.digest e [], lookup-insert_self p.digest e c.entries),
      λ h.
          ground (arith, lookup-insert_self p.digest e [], lookup-insert_self p.digest e c.entries),
    )
