-- ===== src/Relay/Admin/Tests.antt =====
-- Requests to the admin server, and the property of the token at one of them.
use purple_wolf.Prelude.{none, some, codes, str_eq, starts_with, ◌≡◌, ◌≢◌, ◌⊎◌, refl}
use purple_wolf.Relay.Admin.Token.{bearer, Probe, route-token}
use purple_wolf.Relay.Admin.{
  diff_loop, constant_time_eq, strip_prefix, presented_is, is_authorized, Response, answer, route,
}

program : Unit {0}
unfolding route answer is_authorized presented_is strip_prefix constant_time_eq diff_loop str_eq
    starts_with
program = tt

allowed :
    route (some (codes "tok")) (codes "/metrics") (some (codes "Bearer tok")) 0 ≡ Response.metrics
unfolding program
allowed = refl

wrong_byte :
    route (some (codes "tok")) (codes "/metrics") (some (codes "Bearer toj")) 0
    ≡ Response.unauthorized
unfolding program
wrong_byte = refl

probe : route (some (codes "tok")) (codes "/readyz") none 0 ≡ Response.not_ready
unfolding program
probe = refl

route-token_example :
    ((route (some (codes "tok")) (codes "/version") (some (codes "Basic tok")) 1
        ≡ answer (codes "/version") 1)
      × (Probe (codes "/version") ⊎ (some (codes "Basic tok") ≡ some (bearer (codes "tok")))))
    ⊎ ((route (some (codes "tok")) (codes "/version") (some (codes "Basic tok")) 1
          ≡ Response.unauthorized)
        × (¬ Probe (codes "/version"))
        × (some (codes "Basic tok") ≢ some (bearer (codes "tok"))))
route-token_example = route-token (codes "tok") (codes "/version") (some (codes "Basic tok")) 1
