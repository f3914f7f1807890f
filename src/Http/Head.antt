-- ===== src/Http/Head.antt =====
-- src/engine/HttpParse.cpp: `parseHead`, the parser of an HTTP/1.x request head, without the empty
-- line that ends it. `return p` leaves what is parsed so far with `ok` false.
pub mod Field
pub mod RoundTrip
pub mod Target
pub mod Sound
mod Examples
pub mod Written
use nitro_server.Base.{
  ℕ, zero, suc, ◌+◌, Bool, true, false, ◌&&◌, ◌||◌, not, Option, none, some, List, [], ◌∷◌,
  if◌then◌else◌, ltb, leb, ◌==◌, bytes_eq, length, take, drop, all,
}
use nitro_server.Base.Text.{Bytes, codes}
use nitro_server.Common.{Method, get, parse_method}
use nitro_server.Http.Fields.{Header, is_empty}
use nitro_server.Http.Crlf.{find_crlf}
use nitro_server.Http.Head.Field.{cut, parse_field}

pub record ParsedHead : Type 0 where
  pub method : Method
  pub custom_method : Bytes
  pub target : Bytes
  pub version : Bytes
  pub headers : List Header
  pub ok : Bool
  pub bad_version : Bool

abbrev pub unparsed : ParsedHead
unparsed = record {
  method = get;
  custom_method = [];
  target = [];
  version = [];
  headers = [];
  ok = false;
  bad_version = false;
}

-- A byte that the request line may hold.
unfoldable pub is_line_byte : ℕ → Bool
is_line_byte u = not (ltb u 0x21 && not (u == b' ')) && not (leb 0x7f u)

-- `target.substr(target.find("://") + 3)`.
unfoldable pub after_scheme : Bytes → Bytes
after_scheme [] = []
after_scheme (c ∷ s) =
    let rest = after_scheme s in
    if bytes_eq (take 3 (c ∷ s)) (codes "://") then drop 3 (c ∷ s) else rest

-- The text from the first slash on, or one slash.
unfoldable pub from_slash : Bytes → Bytes
from_slash [] = codes "/"
from_slash (c ∷ s) = let rest = from_slash s in if c == b'/' then c ∷ s else rest

abbrev pub is_absolute : Bytes → Bool
is_absolute target =
    ltb 7 (length target)
    && (bytes_eq (take 7 target) (codes "http://") || bytes_eq (take 8 target) (codes "https://"))

abbrev pub starts_slash : Bytes → Bool
starts_slash [] = false
starts_slash (c ∷ s) = c == b'/'

-- The three forms of a target, reduced to a path or `*`; `none` is a parse failure.
unfoldable pub reduce_target : Bytes → Option Bytes
reduce_target target =
    if is_absolute target
    then some (from_slash (after_scheme target))
    else if not (starts_slash target) && not (bytes_eq target (codes "*"))
    then none
    else some target

abbrev pub next_field : Option Header → Bool × List Header → Bool × List Header
next_field none rest = (false, [])
next_field (some h) (ok, hs) = (ok, h ∷ hs)

-- The loop over the field lines, from `pos` on: whether it ended, and the headers pushed. Every
-- round that goes on takes the two bytes of a line end, so that the fuel, one more than the length,
-- is enough.
unfoldable pub header_lines : ℕ → Bytes → Bool × List Header
header_lines zero s = (false, [])
header_lines (suc fuel) s = elim (find_crlf s) [
  | none ↦ if is_empty s then (true, []) else next_field (parse_field s) (true, [])
  | some (line, after) ↦
      let rest = header_lines fuel after in
      if is_empty line then (true, []) else next_field (parse_field line) rest
]

-- `none` for a request line that ends the head.
unfoldable pub with_lines : ParsedHead → Option Bytes → ParsedHead
with_lines p none = record p { ok = true }
with_lines p (some s) =
    let lines = header_lines (suc (length s)) s in record p { headers = lines.1; ok = lines.0 }

unfoldable pub on_target : ParsedHead → Option Bytes → Option Bytes → ParsedHead
on_target p none lines = p
on_target p (some target) lines = with_lines (record p { target = target }) lines

-- Behind the three parts of the request line.
unfoldable pub on_parts : Bytes → Bytes → Bytes → Option Bytes → ParsedHead
on_parts token target version lines =
    let (method, custom_method) = parse_method token in
    let p = record unparsed { method = method; custom_method = custom_method } in
    if not (bytes_eq version (codes "HTTP/1.1")) && not (bytes_eq version (codes "HTTP/1.0"))
    then record p { bad_version = true }
    else on_target (record p { version = version }) (reduce_target target) lines

unfoldable pub on_line : Bytes → Option Bytes → ParsedHead
on_line line lines = if not (all is_line_byte line) then unparsed else elim (cut b' ' line) [
  | none ↦ unparsed
  | some (token, after) ↦ elim (cut b' ' after) [
    | none ↦ unparsed
    | some (target, version) ↦
        if is_empty token || is_empty target then unparsed else on_parts token target version lines
  ]
]

unfoldable pub parse_head : Bytes → ParsedHead
parse_head head = elim (find_crlf head) [
  | none ↦ on_line head none
  | some (line, lines) ↦ on_line line (some lines)
]
