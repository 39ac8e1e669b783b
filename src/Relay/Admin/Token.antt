-- ===== src/Relay/Admin/Token.antt =====
-- Who gets behind the token.
use Prim.Native.Nat.{bit_or, bit_xor, bit_or-bitwise, bit_xor-bitwise, digits, differ}
use mathlib.Core.Option.{some-injective}
use purple_wolf.Prelude.{
  ℕ, zero, suc, ◌/◌, ◌%◌, ◌≤◌, max, Bool, true, false, not, ◌&&◌, if◌then◌else◌, [], ◌∷◌, ◌++◌,
  length, drop, Option, none, some, Str, Bytes, codes, str_eq, str_eq→eq, str_eq_refl, ◌≢◌,
  starts_with, starts_with→append, starts_with-append, drop-append, ◌≡◌, ◌↔◌, ◌⊎◌, refl, sym, ap,
  ◌∙◌, Bool-cases, inl, inr, arith,
}
use purple_wolf.Relay.Admin.{
  diff_loop, constant_time_eq, strip_prefix, presented_is, is_authorized, Response, answer, route,
}

or-digits : (n a b : ℕ) → a ≤ n → digits (λ b. b) max n a b ≡ 0 → (a ≡ 0) × (b ≡ 0)
or-digits zero a b h e = (omega arith, e)
or-digits (suc n) zero b h e = (refl, e)
or-digits (suc n) (suc a) b h e =
    let (x, y) = or-digits n (suc a / 2) (b / 2) (omega arith) (omega arith) in absurd (omega arith)

differ-zero : (x y : ℕ) → differ x y ≡ 0 → x ≡ y
differ-zero zero y e = sym e
differ-zero (suc x) zero e = absurd (omega arith)
differ-zero (suc x) (suc y) e = ap suc (differ-zero x y e)

differ_self : (x : ℕ) → differ x x ≡ 0
differ_self zero = refl
differ_self (suc x) = differ_self x

xor-digits : (n a b : ℕ) → a ≤ n → digits (λ b. b) differ n a b ≡ 0 → a ≡ b
xor-digits zero a b h e = omega arith
xor-digits (suc n) zero b h e = sym e
xor-digits (suc n) (suc a) b h e =
    let x = xor-digits n (suc a / 2) (b / 2) (omega arith) (omega arith) in
    let y = differ-zero (suc a % 2) (b % 2) (omega arith) in omega arith

xor_digits_self : (n a : ℕ) → a ≤ n → digits (λ b. b) differ n a a ≡ 0
xor_digits_self zero a h = omega arith
xor_digits_self (suc n) zero h = refl
xor_digits_self (suc n) (suc a) h =
    let x = xor_digits_self n (suc a / 2) (omega arith) in
    let y = differ_self (suc a % 2) in omega arith

bit_xor_self : (x : ℕ) → bit_xor x x ≡ 0
bit_xor_self x = (λ i. bit_xor-bitwise x x i) ∙ xor_digits_self x x (omega arith)

bit_xor-zero : (x y : ℕ) → bit_xor x y ≡ 0 → x ≡ y
bit_xor-zero x y e = xor-digits x x y (omega arith) ((λ i. sym (λ k. bit_xor-bitwise x y k) i) ∙ e)

bit_or-zero : (x y : ℕ) → bit_or x y ≡ 0 → (x ≡ 0) × (y ≡ 0)
bit_or-zero x y e = or-digits x x y (omega arith) ((λ i. sym (λ k. bit_or-bitwise x y k) i) ∙ e)

diff_loop-zero :
    (d : ℕ) (a b : Bytes) → diff_loop d a b ≡ 0 → (d ≡ 0) × (length a ≡ length b → a ≡ b)
unfolding diff_loop
diff_loop-zero d [] [] e = (e, λ l. refl)
diff_loop-zero d [] (y ∷ b) e = (e, λ l. absurd (omega arith))
diff_loop-zero d (x ∷ a) [] e = (e, λ l. absurd (omega arith))
diff_loop-zero d (x ∷ a) (y ∷ b) e =
    let (now, later) = diff_loop-zero (bit_or d (bit_xor x y)) a b e in
    let (before, pair) = bit_or-zero d (bit_xor x y) now in
    (before, λ l. ap (λ z. z ∷ a) (bit_xor-zero x y pair) ∙ ap (◌∷◌ y) (later (omega arith)))

diff_loop_self : (a : Bytes) → diff_loop 0 a a ≡ 0
unfolding diff_loop
diff_loop_self [] = refl
diff_loop_self (x ∷ a) = rw (bit_xor_self x) (diff_loop_self a)

-- The comparison that never stops early is equality.
constant_time_eq→eq : (a b : Bytes) → constant_time_eq a b ≡ true → a ≡ b
unfolding constant_time_eq
constant_time_eq→eq a b h = (diff_loop-zero 0 a b (ground arith)).1 (ground arith)

constant_time_eq_refl : (a : Bytes) → constant_time_eq a a ≡ true
unfolding constant_time_eq
constant_time_eq_refl a = ground (arith, diff_loop_self a)

abbrev pub bearer : Str → Str
bearer token = codes "Bearer " ++ token

presented_is→bearer :
    (token header : Str)
    → presented_is token (strip_prefix (codes "Bearer ") header) ≡ true
    → header ≡ bearer token
unfolding strip_prefix presented_is constant_time_eq
presented_is→bearer token header h = elim (Bool-cases (starts_with (codes "Bearer ") header)) [
  | inr other ↦ absurd (ground (arith, other))
  | inl fits ↦
      starts_with→append (codes "Bearer ") header fits
      ∙ ap bearer (constant_time_eq→eq (drop 7 header) token (rw fits at h))
]

presented_is-bearer :
    (token : Str) → presented_is token (strip_prefix (codes "Bearer ") (bearer token)) ≡ true
unfolding strip_prefix presented_is constant_time_eq
presented_is-bearer token =
    rw (starts_with-append (codes "Bearer ") token)
      (rw (drop-append (codes "Bearer ") token) (constant_time_eq_refl token))

is_authorized-bearer :
    (token : Str) (header : Option Str)
    → (is_authorized (some token) header ≡ true) ↔ (header ≡ some (bearer token))
unfolding is_authorized
is_authorized-bearer token none = ((λ h. absurd cc), λ h. absurd cc)
is_authorized-bearer token (some header) = (
  (λ h. ap some (presented_is→bearer token header h)),
  λ h.
      ap (λ z. presented_is token (strip_prefix (codes "Bearer ") z)) (some-injective _ _ h)
      ∙ presented_is-bearer token,
)

abbrev pub Probe : Str → Type 0
Probe path = (path ≡ codes "/healthz") ⊎ (path ≡ codes "/readyz")

gated :
    (health ready allowed : Bool) (a : Response)
    → (((if not health && not ready then (if not allowed then Response.unauthorized else a) else a)
          ≡ a)
        × ((health ≡ true) ⊎ ((ready ≡ true) ⊎ (allowed ≡ true))))
      ⊎ (((if not health && not ready
              then (if not allowed then Response.unauthorized else a)
              else a)
            ≡ Response.unauthorized)
          × (health ≡ false)
          × (ready ≡ false)
          × (allowed ≡ false))
gated true ready allowed a = inl (refl, inl refl)
gated false true allowed a = inl (refl, inr (inl refl))
gated false false true a = inl (refl, inr (inr refl))
gated false false false a = inr (refl, refl, refl, refl)

true-false : ¬ (true ≡ false)
true-false e = cc

other_path :
    (path : Str)
    → str_eq path (codes "/healthz") ≡ false
    → str_eq path (codes "/readyz") ≡ false
    → ¬ Probe path
other_path path health ready (inl e) =
    true-false (sym (rw e (str_eq_refl (codes "/healthz"))) ∙ health)
other_path path health ready (inr e) =
    true-false (sym (rw e (str_eq_refl (codes "/readyz"))) ∙ ready)

-- Where a token is set, a request gets its path's answer exactly if the path is a probe or the header is
-- `Bearer ` and the token, byte for byte; any other is refused as unauthorized.
pub route-token :
    (token path : Str) (header : Option Str) (gauge : ℕ)
    → ((route (some token) path header gauge ≡ answer path gauge)
        × (Probe path ⊎ (header ≡ some (bearer token))))
      ⊎ ((route (some token) path header gauge ≡ Response.unauthorized)
          × (¬ Probe path)
          × (header ≢ some (bearer token)))
unfolding route
route-token token path header gauge =
    let (enough, needed) = is_authorized-bearer token header in
    elim (gated (str_eq path (codes "/healthz")) (str_eq path (codes "/readyz"))
      (is_authorized (some token) header) (answer path gauge)) [
        | inl (e, inl health) ↦ inl (e, inl (inl (str_eq→eq path (codes "/healthz") health)))
        | inl (e, inr (inl ready)) ↦ inl (e, inl (inr (str_eq→eq path (codes "/readyz") ready)))
        | inl (e, inr (inr allowed)) ↦ inl (e, inr (enough allowed))
        | inr (e, health, ready, refused) ↦
            inr (e, other_path path health ready, λ h. true-false (sym (needed h) ∙ refused))
      ]
