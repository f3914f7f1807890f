-- ===== src/Ws/Base64.antt =====
-- `base64Encode` of src/engine/WsCodec.h.
pub mod Decode
use nitro_server.Base.{
  ℕ, ◌+◌, ◌*◌, ◌/◌, ◌%◌, ◌^◌, Bool, true, false, List, [], ◌∷◌, ◌++◌, if◌then◌else◌, get_or,
}
use nitro_server.Base.Text.{Bytes, codes}

abbrev pub alphabet : Bytes
alphabet = codes "ABCDEFGHIJKLMNOPQRSTUVWXYZabcdefghijklmnopqrstuvwxyz0123456789+/"

-- One round of the loop: `has_b` is `i + 1 < len` and `has_c` is `i + 2 < len`. The three fields of
-- `triple` do not overlap, so that the disjunctions are sums; `& 0x3f` keeps six bits.
pub base64_group : ℕ → ℕ → ℕ → Bool → Bool → Bytes
base64_group a b c has_b has_c =
    let triple = a * 2 ^ 16 + b * 2 ^ 8 + c in
    get_or alphabet (triple / 2 ^ 18 % 64) 0
    ∷ get_or alphabet (triple / 2 ^ 12 % 64) 0
    ∷ (if has_b then get_or alphabet (triple / 2 ^ 6 % 64) 0 else b'=')
    ∷ (if has_c then get_or alphabet (triple % 64) 0 else b'=')
    ∷ []

pub base64_encode : Bytes → Bytes
base64_encode [] = []
base64_encode (a ∷ []) = base64_group a 0 0 false false
base64_encode (a ∷ b ∷ []) = base64_group a b 0 true false
base64_encode (a ∷ b ∷ c ∷ rest) = base64_group a b c true true ++ base64_encode rest
