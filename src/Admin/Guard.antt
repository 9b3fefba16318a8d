-- ===== src/Admin/Guard.antt =====
-- The token of the admin API.
use quotaguard.Prelude.{Option, Text, arith, none, some, text_eq, text_eq_sound, true, ◌≡◌}
use quotaguard.Errors.{ok}
use quotaguard.Endpoint.{compare_digest, if_same, require_admin}

-- The header that the guard wants.
abbrev pub Carries : Text → Option Text → Type 0
Carries admin_token none = ⊥
Carries admin_token (some token) = token ≡ admin_token

-- The guard lets a request pass only with the token.
pub require_admin-Carries :
    (admin_token : Text) (token : Option Text) {t : Unit {0}}
    → require_admin admin_token token ≡ ok t
    → Carries admin_token token
unfolding require_admin compare_digest if_same
require_admin-Carries admin_token none h = cc
require_admin-Carries admin_token (some token) h =
    let same : text_eq token admin_token ≡ true = ground arith in
    text_eq_sound token admin_token same
