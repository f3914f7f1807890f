-- ===== src/Proxy.antt =====
-- `uvParseProxyHeader` of src/engine/UvReactor.cpp: the header of the HAProxy PROXY protocol.
--
-- `inet_ntop` and `inet_pton` are the C library's: parameters.
pub mod Stable
pub mod Bounds
pub mod Written
mod Examples
use nitro_server.Base.{
  ℕ, suc, ◌+◌, ◌*◌, ◌/◌, Bool, true, false, ◌&&◌, ◌||◌, not, Option, none, some, List, [], ◌∷◌,
  ◌++◌, if◌then◌else◌, ltb, leb, ◌==◌, bytes_eq, length, take, drop, get_or, all, bit_and,
}
use nitro_server.Base.Text.{Bytes, codes}
use nitro_server.Http.Crlf.{find_crlf}
use nitro_server.Http.Fields.{is_empty}
use nitro_server.Http.Framing.{is_digit}
use nitro_server.Http.Request.{digits_value}

-- 0, -1, and 1 with `ip` and `used`.
pub data Parsed : Type 0 where
  more malformed : Parsed
  parsed : Bytes → ℕ → Parsed

pub data Family : Type 0 where
  inet inet6 : Family

-- `kV2Sig` and `kV1`
abbrev pub signature : Bytes
signature = 0x0d ∷ 0x0a ∷ 0x0d ∷ 0x0a ∷ 0 ∷ 0x0d ∷ 0x0a ∷ codes "QUIT" ++ (0x0a ∷ [])

abbrev pub v1_start : Bytes
v1_start = codes "PROXY "

-- The text as a C string.
unfoldable pub c_str : Bytes → Bytes
c_str [] = []
c_str (c ∷ s) = let rest = c_str s in if c == 0 then [] else c ∷ rest

-- The pieces between the spaces, at least one.
unfoldable pub split_spaces : Bytes → Bytes → List Bytes
split_spaces cur [] = cur ∷ []
split_spaces cur (c ∷ s) = elim (c == b' ') [
  | true ↦ cur ∷ split_spaces [] s
  | false ↦ split_spaces (cur ++ (c ∷ [])) s
]

unfoldable pub is_port : Bytes → Bool
is_port t =
    not (is_empty t || ltb 5 (length t)) && all is_digit t && not (ltb 65535 (digits_value 0 t))

abbrev pub family_of : Bytes → Option Family
family_of t =
    if bytes_eq t (codes "TCP4")
    then some inet
    else if bytes_eq t (codes "TCP6")
    then some inet6
    else none

-- The body's length in the header of a version 2.
unfoldable pub v2_length : Bytes → ℕ
v2_length buf = get_or buf 14 0 * 256 + get_or buf 15 0

module _ (ntop : Family → Bytes → Option Bytes) (pton : Family → Bytes → Bool) where
  abbrev pub address : Option Bytes → ℕ → Parsed
  address none used = malformed
  address (some text) used = parsed text used

  -- The addresses of a `PROXY` command.
  unfoldable pub v2_address : ℕ → ℕ → Bytes → ℕ → Parsed
  v2_address af len body used =
      if af == 1
      then (if ltb len 12 then malformed else address (ntop inet (take 4 body)) used)
      else if af == 2
      then (if ltb len 36 then malformed else address (ntop inet6 (take 16 body)) used)
      else if not (af == 0)
      then malformed
      else parsed [] used

  unfoldable pub parse_v2 : Bytes → Parsed
  parse_v2 buf =
      let ver_cmd = get_or buf 12 0 in
      let len = v2_length buf in
      let cmd = bit_and ver_cmd 0x0f in
      if ltb (length buf) 16
      then more
      else if not (bit_and ver_cmd 0xf0 == 0x20)
      then malformed
      else if ltb (length buf) (16 + len)
      then more
      else if cmd == 0
      then parsed [] (16 + len)
      else if not (cmd == 1)
      then malformed
      else v2_address (get_or buf 13 0 / 16) len (take len (drop 16 buf)) (16 + len)

  unfoldable pub v1_address : Family → Bytes → Bytes → Bytes → Bytes → ℕ → Parsed
  v1_address family src dst sport dport used =
      if not (pton family (c_str src)) || not (pton family (c_str dst))
      then malformed
      else if not (is_port sport) || not (is_port dport)
      then malformed
      else parsed src used

  abbrev pub v1_tokens : List Bytes → ℕ → Parsed
  v1_tokens (name ∷ src ∷ dst ∷ sport ∷ dport ∷ []) used =
      if bytes_eq name (codes "UNKNOWN") then parsed [] used else elim (family_of name) [
        | none ↦ malformed
        | some family ↦ v1_address family src dst sport dport used
      ]
  v1_tokens (name ∷ others) used =
      if bytes_eq name (codes "UNKNOWN") then parsed [] used else malformed
  v1_tokens [] used = malformed

  -- A line without its CRLF.
  unfoldable pub v1_line : Bytes → Parsed
  v1_line line =
      if ltb 106 (length line)
      then malformed
      else v1_tokens (split_spaces [] (drop 6 line)) (length line + 2)

  unfoldable pub parse_v1 : Bytes → Parsed
  parse_v1 buf =
      if not (bytes_eq (take 6 buf) (take (length buf) v1_start))
      then (if ltb (length buf) 12 && bytes_eq buf (take (length buf) signature)
          then more
          else malformed)
      else elim (find_crlf buf) [
        | none ↦ if leb 108 (length buf) then malformed else more
        | some (line, rest) ↦ v1_line line
      ]

  unfoldable pub parse_proxy : Bytes → Parsed
  parse_proxy buf =
      if leb 12 (length buf) && bytes_eq (take 12 buf) signature then parse_v2 buf else parse_v1 buf
