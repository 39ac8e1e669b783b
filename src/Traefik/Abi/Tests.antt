-- ===== src/Traefik/Abi/Tests.antt =====
-- A host with a header that was sent twice, and what the guest sees of it.
use purple_wolf.Prelude.{
  ◌^◌, true, false, List, [], ◌∷◌, take, flat_map, some, Bytes, contains, codes, ◌≡◌, refl, arith,
}
use purple_wolf.Traefik.Abi.Headers.{Hands, header_of, collect_headers-host}
use purple_wolf.Traefik.Abi.{
  Abi, split_eof, read_request_body, get_request_header, get_request_header_names,
}
use purple_wolf.Traefik.Body.{BodyResult, BodyReadError, drain_loop, extend}
use purple_wolf.Traefik.Entry.{collect_headers}
use purple_wolf.Traefik.Host.Multi.{host}
use purple_wolf.Traefik.Host.{clip}

abbrev values : Bytes → List Bytes
values name = codes "1" ∷ codes "2" ∷ []

abbrev abi : Abi
abi = record {
  enable_features = λ features. 3;
  get_config = λ call limit. (0, []);
  get_method = λ call limit. (0, []);
  get_uri = λ call limit. (0, []);
  get_source_addr = λ call limit. (0, []);
  get_header_names = host (codes "A" ∷ []);
  get_header_values = λ name. host (values name);
  read_body = (2, codes "hi") ∷ (2 ^ 32, []) ∷ [];
}

-- The body is read in one part, and then the end.
body :
    read_request_body abi 10 true
    ≡ some (BodyResult.ok (record { bytes = codes "hi"; exceeded = false }), codes "hi")
unfolding read_request_body drain_loop extend split_eof clip
body = refl

-- A host without the feature.
unbuffered :
    read_request_body (record abi { enable_features = λ features. 2 }) 10 true
    ≡ some (BodyResult.err BodyReadError.buffering_unsupported, [])
unfolding read_request_body
unbuffered = refl

hands : Hands some (λ b. b) abi (codes "A" ∷ []) values
unfolding contains
hands = record {
  get_names = refl;
  get_values = λ name. refl;
  names_fit = record { no_nul = (refl, tt); few = omega arith; fits = omega arith };
  values_fit =
      λ name. record { no_nul = (refl, (refl, tt)); few = omega arith; fits = omega arith };
  name_texts = (refl, tt);
  value_texts = λ name t e. refl;
}

collect_headers-host_example :
    collect_headers
      (get_request_header some (λ b. b) abi)
      (get_request_header_names some (λ b. b) abi)
    ≡ flat_map (header_of values) (take 1024 (codes "A" ∷ []))
collect_headers-host_example = collect_headers-host some (λ b. b) abi (codes "A" ∷ []) values hands

seen : flat_map (header_of values) (codes "A" ∷ []) ≡ (codes "a", codes "1, 2") ∷ []
unfolding flat_map
seen = refl
