-- ===== src/Schemas/Tests.antt =====
-- The patterns of the request models on some texts.
use quotaguard.Prelude.{[], codes, false, refl, true, ◌≡◌}
use quotaguard.Schemas.{resource_ok, slug_ok, url_ok}

slug_test : slug_ok (codes "team-42") ≡ true
unfolding slug_ok
slug_test = refl

empty_slug_test : slug_ok [] ≡ false
unfolding slug_ok
empty_slug_test = refl

upper_slug_test : slug_ok (codes "Team") ≡ false
unfolding slug_ok
upper_slug_test = refl

resource_test : resource_ok (codes "GET:/v1/items_2") ≡ true
unfolding resource_ok
resource_test = refl

space_test : resource_ok (codes "GET /v1") ≡ false
unfolding resource_ok
space_test = refl

url_test : url_ok (codes "ftp://example.com") ≡ false
unfolding url_ok
url_test = refl
