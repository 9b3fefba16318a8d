-- ===== src/Keys/Tests.antt =====
-- A key is revoked, overridden and revoked again.
use quotaguard.Prelude.{List, [], codes, refl, ◌∷◌}
use quotaguard.Plans.{unset, value}
use quotaguard.Keys.{KeyUpdate}
use quotaguard.Keys.Revocation.{
  IdsFrom, KeyOperation, RevokedKept, override, perform_keys, revoke, revoked_forever,
}
use quotaguard.Samples.{demo_app}

abbrev rename : KeyUpdate
rename = record { name = value (codes "renamed"); override_of = λ f. unset }

abbrev some_operations : List KeyOperation
some_operations =
    override (codes "key_1") rename
    ∷ revoke (codes "key_2") 1_753_000_200
    ∷ revoke (codes "key_1") 1_753_000_300
    ∷ []

revoked_forever_example :
    IdsFrom 1 (perform_keys some_operations demo_app).db.keys
    × RevokedKept demo_app.db.keys (perform_keys some_operations demo_app).db.keys
revoked_forever_example = revoked_forever some_operations demo_app (refl, (refl, tt))
