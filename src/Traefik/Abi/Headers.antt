-- ===== src/Traefik/Abi/Headers.antt =====
-- What the guest sees of the headers of a request, from a host that keeps the contract of Traefik/Host/Multi.
use mathlib.Core.Path.{fun_ext}
use purple_wolf.Prelude.{
  ℕ, zero, suc, ◌^◌, ◌≤◌, ◌<◌, false, List, [], ◌∷◌, map, length, take, Option, none, some, Str,
  Bytes, All, ◌≡◌, refl, sym, ap, ◌∙◌, contains, ◌+◌, ◌++◌, ◌&&◌, leb, if◌then◌else◌, flat_map,
  append-nil, append_assoc, to_ascii_lowercase, lower,
}
use purple_wolf.Request.{Header}
use purple_wolf.Traefik.Abi.{
  Abi, bytes_to_string_lossy, header_names, header_values, get_request_header,
  get_request_header_names,
}
use purple_wolf.Traefik.Body.{max_alloc}
use purple_wolf.Traefik.Entry.{collect_headers}
use purple_wolf.Traefik.Host.Multi.{encoded, host, read_buf_multi-host}
use purple_wolf.Traefik.Host.{join_header_values, join_rest, max_multi_values, read_buf_multi}

-- The values of a header in one text, or `none` where there are none: the first, and each other one behind
-- a comma and a space.
abbrev pub joined : List Bytes → Option Str
joined [] = none
joined (v ∷ vs) = some (v ++ flat_map (λ w. 44 ∷ 32 ∷ w) vs)

join_rest-flat_map :
    (v : Bytes) (vs : List Bytes) → join_rest v vs ≡ v ++ flat_map (λ w. 44 ∷ 32 ∷ w) vs
unfolding flat_map
join_rest-flat_map v [] = sym (append-nil v)
join_rest-flat_map v (w ∷ vs) =
    join_rest-flat_map (v ++ 44 ∷ 32 ∷ w) vs
    ∙ append_assoc v (44 ∷ 32 ∷ w) (flat_map (λ u. 44 ∷ 32 ∷ u) vs)

-- An upper-case letter of ASCII becomes the lower-case one.
abbrev pub lowered : Bytes → Str
lowered = map (λ b. if leb 65 b && leb b 90 then b + 32 else b)

abbrev pub entry : Bytes → Option Str → List Header
entry name none = []
entry name (some text) = (lowered name, text) ∷ []

-- The header of a name, if it has values.
abbrev pub header_of : (Bytes → List Bytes) → Bytes → List Header
header_of values name = entry name (joined (take 1024 (values name)))

-- A step of the loop over the names.
entry-step :
    (name : Bytes) (o : Option Str) (rest : List Header)
    → elim o [ none ↦ rest | some v ↦ (to_ascii_lowercase name, v) ∷ rest ] ≡ entry name o ++ rest
unfolding to_ascii_lowercase lower
entry-step name none rest = refl
entry-step name (some v) rest = refl

-- Texts without NUL that the guest can take.
pub record Handed (vs : List Bytes) : Type 0 where
  pub no_nul : All (λ v. contains 0 v ≡ false) vs
  pub few : length vs < 2 ^ 31
  pub fits : length (encoded vs) ≤ max_alloc

module _ (from_utf8 : Bytes → Option Str) (from_utf8_lossy : Bytes → Str) where
  -- A text of UTF-8.
  abbrev IsText : Bytes → Type 0
  IsText b = from_utf8 b ≡ some b

  lossy-id : (b : Bytes) → IsText b → bytes_to_string_lossy from_utf8 from_utf8_lossy b ≡ b
  unfolding bytes_to_string_lossy
  lossy-id b h = rw (h, bytes_to_string_lossy) refl

  lossy-map :
      (bs : List Bytes)
      → All IsText bs
      → map (bytes_to_string_lossy from_utf8 from_utf8_lossy) bs ≡ bs
  lossy-map [] h = refl
  lossy-map (b ∷ bs) (h, hs) = cc (lossy-id b h, lossy-map bs hs)

  All-take : (n : ℕ) (bs : List Bytes) → All IsText bs → All IsText (take n bs)
  All-take zero bs h = tt
  All-take (suc n) [] h = tt
  All-take (suc n) (b ∷ bs) (h, hs) = (h, All-take n bs hs)

  join-joined :
      (vs : List Bytes)
      → ((t : Str) → joined vs ≡ some t → IsText t)
      → join_header_values (bytes_to_string_lossy from_utf8 from_utf8_lossy) vs ≡ joined vs
  unfolding join_header_values
  join-joined [] h = refl
  join-joined (v ∷ vs) h =
      let e = join_rest-flat_map v vs in
      ap (λ t. some (bytes_to_string_lossy from_utf8 from_utf8_lossy t)) e
      ∙ ap some (lossy-id _ (h _ refl))

  -- A host that hands over the names, and for each name its values.
  pub record Hands (a : Abi) (names : List Bytes) (values : Bytes → List Bytes) : Type 0 where
    pub get_names : a.get_header_names ≡ host names
    pub get_values : (name : Bytes) → a.get_header_values name ≡ host (values name)
    pub names_fit : Handed names
    pub values_fit : (name : Bytes) → Handed (values name)
    pub name_texts : All IsText names
    pub value_texts :
        (name t : Bytes) → joined (take max_multi_values (values name)) ≡ some t → IsText t

  module _ (a : Abi) (names : List Bytes) (values : Bytes → List Bytes)
      (h : Hands a names values) where
    get_request_header-host :
        (name : Bytes)
        → get_request_header from_utf8 from_utf8_lossy a name
          ≡ joined (take max_multi_values (values name))
    unfolding get_request_header header_values
    get_request_header-host name =
        let e = h.get_values name in
        let fit = h.values_fit name in
        let r : header_values a name ≡ take max_multi_values (values name) =
          ap read_buf_multi e ∙ read_buf_multi-host (values name) fit.no_nul fit.few fit.fits in
        ap (join_header_values (bytes_to_string_lossy from_utf8 from_utf8_lossy)) r
        ∙ join-joined (take max_multi_values (values name)) (h.value_texts name)

    get_request_header_names-host :
        get_request_header_names from_utf8 from_utf8_lossy a ≡ take max_multi_values names
    unfolding get_request_header_names header_names
    get_request_header_names-host =
        let fit = h.names_fit in
        ap (λ ns. map (bytes_to_string_lossy from_utf8 from_utf8_lossy) ns)
          (ap read_buf_multi h.get_names ∙ read_buf_multi-host names fit.no_nul fit.few fit.fits)
        ∙ lossy-map (take max_multi_values names) (All-take max_multi_values names h.name_texts)

    collect_headers-flat_map :
        (ns : List Bytes)
        → collect_headers (λ name. joined (take 1024 (values name))) ns
          ≡ flat_map (header_of values) ns
    unfolding collect_headers flat_map
    collect_headers-flat_map [] = refl
    collect_headers-flat_map (n ∷ ns) =
        entry-step n (joined (take 1024 (values n))) _
        ∙ ap (λ hs. header_of values n ++ hs) (collect_headers-flat_map ns)

    -- From a host that keeps the contract for the names and values of the headers, if they are UTF-8, without
    -- NUL and in the bounds of the guest, the headers that are inspected are those of the first 1024 names
    -- that have a value, in order, each name with its ASCII letters in lower case, and with all its values,
    -- the first 1024, in one text, each but the first behind a comma and a space.
    pub collect_headers-host :
        collect_headers
          (get_request_header from_utf8 from_utf8_lossy a)
          (get_request_header_names from_utf8 from_utf8_lossy a)
        ≡ flat_map (header_of values) (take 1024 names)
    collect_headers-host =
        ap (λ ns. collect_headers (get_request_header from_utf8 from_utf8_lossy a) ns)
          get_request_header_names-host
        ∙ ap (λ f. collect_headers f (take max_multi_values names))
            (fun_ext get_request_header-host)
        ∙ collect_headers-flat_map (take 1024 names)
