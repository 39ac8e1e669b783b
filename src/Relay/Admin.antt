-- ===== src/Relay/Admin.antt =====
-- The admin server's routing and its check of the token: crates/purple-wolf-relay/src/admin.rs.
pub mod Token
mod Tests
use Prim.Native.Nat.{bit_or, bit_xor}
use purple_wolf.Prelude.{
  ℕ, Bool, true, false, not, ◌&&◌, ◌==◌, if◌then◌else◌, List, [], ◌∷◌, ◌++◌, length, drop, Option,
  none, some, Str, Bytes, codes, str_eq, starts_with,
}

-- The loop over the pairs of bytes.
unfoldable pub diff_loop : ℕ → Bytes → Bytes → ℕ
diff_loop diff [] b = diff
diff_loop diff (x ∷ a) [] = diff
diff_loop diff (x ∷ a) (y ∷ b) = diff_loop (bit_or diff (bit_xor x y)) a b

unfoldable pub constant_time_eq : Bytes → Bytes → Bool
unfolding diff_loop
constant_time_eq a b = if not (length a == length b) then false else diff_loop 0 a b == 0

unfoldable pub strip_prefix : Str → Str → Option Str
unfolding starts_with
strip_prefix p s = if starts_with p s then some (drop (length p) s) else none

abbrev pub presented_is : Str → Option Str → Bool
unfolding constant_time_eq
presented_is expected none = false
presented_is expected (some presented) = constant_time_eq presented expected

unfoldable pub is_authorized : Option Str → Option Str → Bool
unfolding presented_is strip_prefix
is_authorized none header = true
is_authorized (some expected) none = false
is_authorized (some expected) (some header) =
    presented_is expected (strip_prefix (codes "Bearer ") header)

-- The answers, by what their bodies are.
pub data Response : Type 0 where
  unauthorized healthy ready not_ready metrics version not_found : Response

abbrev pub answer : Str → ℕ → Response
unfolding str_eq
answer path gauge =
    if str_eq path (codes "/healthz")
    then Response.healthy
    else if str_eq path (codes "/readyz")
    then (if gauge == 1 then Response.ready else Response.not_ready)
    else if str_eq path (codes "/metrics")
    then Response.metrics
    else if str_eq path (codes "/version")
    then Response.version
    else Response.not_found

-- `header` is the Authorization header where it is text, and `gauge` the readiness gauge.
unfoldable pub route : Option Str → Str → Option Str → ℕ → Response
unfolding is_authorized answer
route auth_token path header gauge =
    let probe = str_eq path (codes "/healthz") in
    let ready = str_eq path (codes "/readyz") in
    if not probe && not ready
    then (if not (is_authorized auth_token header)
        then Response.unauthorized
        else answer path gauge)
    else answer path gauge
