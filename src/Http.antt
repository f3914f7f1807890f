-- ===== src/Http.antt =====
-- The response heads of src/engine/UvReactor.cpp: `uvIequals`, `uvIsToken`, `uvIsSafeValue`,
-- `uvIsEngineOwnedHeader`, `uvBuildHead` and `uvBuildStreamHead`.
--
-- The date is formatted by `strftime`; its text is a parameter. A status, a length and a number of
-- seconds are int64 values that are not negative; a negative number of seconds is `none`.
pub mod Chunk
pub mod Crlf
pub mod Chunked
pub mod Fields
pub mod Head
pub mod Request
pub mod Answer
pub mod Upload
pub mod Upgrade
pub mod Framing
pub mod Reason
pub mod Plain
pub mod Owned
pub mod Lines
mod Examples
use nitro_server.Base.{
  ℕ, zero, suc, ◌+◌, Bool, true, false, ◌&&◌, ◌||◌, not, Option, none, some, List, [], ◌∷◌, ◌++◌,
  if◌then◌else◌, ltb, leb, ◌==◌, all, take, length, bytes_eq,
}
use nitro_server.Base.Text.{Bytes, codes}
use nitro_server.Json.{int_text}
use nitro_server.Http.Reason.{reason_phrase}

abbrev pub lower : ℕ → ℕ
lower c = if leb b'A' c && leb c b'Z' then c + 32 else c

pub iequals : Bytes → Bytes → Bool
iequals [] [] = true
iequals [] (d ∷ t) = false
iequals (c ∷ s) [] = false
iequals (c ∷ s) (d ∷ t) = lower c == lower d && iequals s t

abbrev pub any_of : ℕ → Bytes → Bool
any_of c [] = false
any_of c (m ∷ marks) = c == m || any_of c marks

abbrev pub is_token_mark : ℕ → Bool
is_token_mark c = any_of c (codes "!#$%&'*+-.^_`|~")

pub is_token_byte : ℕ → Bool
is_token_byte c =
    (leb b'a' c && leb c b'z')
    || (leb b'A' c && leb c b'Z')
    || (leb b'0' c && leb c b'9')
    || is_token_mark c

pub is_token : Bytes → Bool
is_token [] = false
is_token (c ∷ s) = all is_token_byte (c ∷ s)

pub is_safe_byte : ℕ → Bool
is_safe_byte c = not ((ltb c 0x20 && not (c == 0x09)) || c == 0x7f)

pub is_safe_value : Bytes → Bool
is_safe_value s = all is_safe_byte s

abbrev pub owned : List Bytes
owned =
    codes "content-length"
    ∷ codes "connection"
    ∷ codes "transfer-encoding"
    ∷ codes "keep-alive"
    ∷ codes "upgrade"
    ∷ codes "trailer"
    ∷ codes "te"
    ∷ []

abbrev pub is_any_of : Bytes → List Bytes → Bool
is_any_of name [] = false
is_any_of name (o ∷ os) = iequals name o || is_any_of name os

-- The seven fields, and every longer name that starts with `proxy-`.
pub is_engine_owned_header : Bytes → Bool
is_engine_owned_header name =
    is_any_of name owned || (ltb 6 (length name) && iequals (take 6 name) (codes "proxy-"))

abbrev pub crlf : Bytes
crlf = 0x0d ∷ 0x0a ∷ []

-- The loop over the caller's headers.
pub header_text : List (Bytes × Bytes) → Bytes
header_text [] = []
header_text ((name, value) ∷ hs) =
    let rest = header_text hs in
    if is_engine_owned_header name
    then rest
    else if not (is_token name) || not (is_safe_value value)
    then rest
    else name ++ (codes ": " ++ (value ++ (crlf ++ rest)))

pub bodyless : ℕ → Bool
bodyless status = status == 204 || status == 304 || (leb 100 status && ltb status 200)

pub connection_text : Bool → Option ℕ → Bytes
connection_text false secs = codes "Connection: close" ++ (crlf ++ crlf)
connection_text true none = codes "Connection: keep-alive" ++ (crlf ++ crlf)
connection_text true (some secs) =
    codes "Connection: keep-alive"
    ++ (crlf ++ (codes "Keep-Alive: timeout=" ++ (int_text secs ++ (crlf ++ crlf))))

-- What a head starts with, up to the caller's headers.
pub status_text : Bytes → ℕ → List (Bytes × Bytes) → Bytes → Bytes
status_text date status headers rest =
    codes "HTTP/1.1 "
    ++ (int_text status
        ++ (codes " "
            ++ (reason_phrase status
                ++ (crlf
                    ++ (codes "Date: " ++ (date ++ (crlf ++ (header_text headers ++ rest))))))))

pub build_head : Bytes → ℕ → List (Bytes × Bytes) → ℕ → Bool → Option ℕ → Bytes
build_head date status headers content_length keep_alive secs = status_text date status headers (
    (if bodyless status then [] else codes "Content-Length: " ++ (int_text content_length ++ crlf))
    ++ connection_text keep_alive secs)

pub build_stream_head : Bytes → ℕ → List (Bytes × Bytes) → Bool → Option ℕ → Bytes
build_stream_head date status headers keep_alive secs =
    status_text date status headers
      (codes "Transfer-Encoding: chunked" ++ (crlf ++ connection_text keep_alive secs))
