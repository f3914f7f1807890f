-- ===== src/Http/Owned.antt =====
-- The response headers that src/engine/UvReactor.cpp keeps for itself.
use nitro_server.Base.{
  ℕ, ◌≡◌, refl, ap, Bool, ◌||◌, [], ◌∷◌, map, ltb, ◌&&◌, bytes_eq, take, length, zero, suc, arith,
}
use nitro_server.Base.Text.{Bytes, codes}
use nitro_server.Http.{is_engine_owned_header, iequals, lower}

-- The names that the engine keeps for itself, whatever their case: the seven fields that frame a message
-- or rule its connection, and every longer name that starts with `proxy-`.
unfoldable pub reserved : Bytes → Bool
reserved name =
    bytes_eq name (codes "connection")
    || bytes_eq name (codes "keep-alive")
    || bytes_eq name (codes "te")
    || bytes_eq name (codes "trailer")
    || bytes_eq name (codes "upgrade")
    || bytes_eq name (codes "transfer-encoding")
    || bytes_eq name (codes "content-length")
    || (bytes_eq (take 6 name) (codes "proxy-") && ltb 6 (length name))

iequals_lem : (a b : Bytes) → iequals a b ≡ bytes_eq (map lower a) (map lower b)
unfolding iequals bytes_eq
iequals_lem [] [] = refl
iequals_lem [] (d ∷ t) = refl
iequals_lem (c ∷ s) [] = refl
iequals_lem (c ∷ s) (d ∷ t) = rw (iequals_lem s t) refl

take-map : (n : ℕ) (s : Bytes) → map lower (take n s) ≡ take n (map lower s)
take-map zero s = refl
take-map (suc n) [] = refl
take-map (suc n) (c ∷ s) = ap (λ t. lower c ∷ t) (take-map n s)

length-map-lower : (s : Bytes) → length (map lower s) ≡ length s
length-map-lower [] = refl
length-map-lower (c ∷ s) = omega (arith, length-map-lower s)

pub is_engine_owned_header_lem :
    (name : Bytes) → is_engine_owned_header name ≡ reserved (map lower name)
unfolding is_engine_owned_header reserved
is_engine_owned_header_lem name = ground (
  arith,
  iequals_lem name (codes "content-length"),
  iequals_lem name (codes "connection"),
  iequals_lem name (codes "transfer-encoding"),
  iequals_lem name (codes "keep-alive"),
  iequals_lem name (codes "upgrade"),
  iequals_lem name (codes "trailer"),
  iequals_lem name (codes "te"),
  iequals_lem (take 6 name) (codes "proxy-"),
  take-map 6 name,
  length-map-lower name,
)
