-- ===== src/Http/Lines.antt =====
-- A response head of src/engine/UvReactor.cpp is the lines that the engine means to send, and no others.
use nitro_server.Base.{
  ℕ, ◌^◌, ◌<◌, ◌≡◌, refl, sym, ap, Bool, true, false, ◌||◌, not, Option, none, some, List, [], ◌∷◌,
  ◌++◌, if◌then◌else◌, All, All-append, Bool-cases, inl, inr, append_assoc, map, ◌∙◌,
}
use nitro_server.Base.Text.{Bytes, codes}
use nitro_server.Json.{int_text}
use nitro_server.Http.Reason.{listed_reasons, reason_phrase}
use nitro_server.Http.Owned.{reserved, is_engine_owned_header_lem}
use nitro_server.Http.Plain.{
  plain, plain-append, safe-plain, token-plain, int_text-plain, reason-plain,
}
use nitro_server.Http.{
  is_token, is_safe_value, is_engine_owned_header, lower, crlf, header_text, bodyless,
  connection_text, status_text, build_head, build_stream_head,
}

-- The lines of a head, each ended by CRLF, and the empty line at its end.
pub text_of : List Bytes → Bytes
text_of [] = crlf
text_of (line ∷ lines) = line ++ (crlf ++ text_of lines)

-- The caller's headers that are sent: the engine owns none of them, and name and value are sound.
pub kept : List (Bytes × Bytes) → List (Bytes × Bytes)
kept [] = []
kept (h ∷ hs) =
    let rest = kept hs in
    if reserved (map lower h.0)
    then rest
    else if not (is_token h.0) || not (is_safe_value h.1)
    then rest
    else h ∷ rest

pub field_line : Bytes × Bytes → Bytes
field_line h = h.0 ++ (codes ": " ++ h.1)

pub connection_lines : Bool → Option ℕ → List Bytes
connection_lines false secs = codes "Connection: close" ∷ []
connection_lines true none = codes "Connection: keep-alive" ∷ []
connection_lines true (some secs) =
    codes "Connection: keep-alive" ∷ (codes "Keep-Alive: timeout=" ++ int_text secs) ∷ []

-- The lines of a head whose framing lines are `framing`.
pub head_lines : Bytes → ℕ → List (Bytes × Bytes) → List Bytes → List Bytes
head_lines date status headers framing =
    (codes "HTTP/1.1 " ++ (int_text status ++ (codes " " ++ reason_phrase status)))
    ∷ (codes "Date: " ++ date)
    ∷ (map field_line (kept headers) ++ framing)

kept_line :
    (name value rest tail : Bytes) (lines : List Bytes)
    → rest ++ tail ≡ text_of lines
    → (name ++ (codes ": " ++ (value ++ (crlf ++ rest)))) ++ tail
      ≡ text_of (field_line (name, value) ∷ lines)
unfolding text_of field_line
kept_line name value rest tail lines h =
    rw
      (
        append_assoc name (codes ": " ++ (value ++ (crlf ++ rest))) tail,
        append_assoc name (codes ": " ++ value) (crlf ++ text_of lines),
        append_assoc value (crlf ++ rest) tail,
        h,
      )
      refl

header_text_lem :
    (hs : List (Bytes × Bytes)) (framing : List Bytes)
    → header_text hs ++ text_of framing ≡ text_of (map field_line (kept hs) ++ framing)
unfolding header_text kept
header_text_lem [] framing = refl
header_text_lem ((name, value) ∷ hs) framing = elim (Bool-cases (is_engine_owned_header name)) [
  | inl e ↦
      let mine = sym (is_engine_owned_header_lem name) ∙ e in
      rw (header_text, kept, e, mine) (header_text_lem hs framing)
  | inr e ↦
      let mine = sym (is_engine_owned_header_lem name) ∙ e in
      elim (Bool-cases (not (is_token name) || not (is_safe_value value))) [
        | inl f ↦ rw (header_text, kept, e, mine, f) (header_text_lem hs framing)
        | inr f ↦
            rw (header_text, kept, e, mine, f)
              (kept_line name value (header_text hs) (text_of framing)
                (map field_line (kept hs) ++ framing) (header_text_lem hs framing))
      ]
]

line-plain :
    (h : Bytes × Bytes)
    → is_token h.0 ≡ true
    → is_safe_value h.1 ≡ true
    → plain (field_line h) ≡ true
unfolding field_line
line-plain h name value =
    plain-append h.0 (codes ": " ++ h.1) (token-plain h.0 name) (safe-plain h.1 value)

field_line-plain :
    (hs : List (Bytes × Bytes)) → All (λ l. plain l ≡ true) (map field_line (kept hs))
unfolding kept
field_line-plain [] = tt
field_line-plain (h ∷ hs) = elim (Bool-cases (reserved (map lower h.0))) [
  | inl e ↦ rw (kept, e) (field_line-plain hs)
  | inr e ↦ elim (Bool-cases (is_token h.0)) [
    | inr f ↦ rw (kept, e, f) (field_line-plain hs)
    | inl f ↦ elim (Bool-cases (is_safe_value h.1)) [
      | inr g ↦ rw (kept, e, f, g) (field_line-plain hs)
      | inl g ↦ rw (kept, e, f, g) (line-plain h f g, field_line-plain hs)
    ]
  ]
]

abbrev pub framing_lines : ℕ → ℕ → Bool → Option ℕ → List Bytes
framing_lines status content_length keep_alive secs =
    (if bodyless status then [] else (codes "Content-Length: " ++ int_text content_length) ∷ [])
    ++ connection_lines keep_alive secs

abbrev pub IsInt64 : Option ℕ → Type 0
IsInt64 none = Unit
IsInt64 (some v) = v < 2 ^ 63

connection_text_lem :
    (keep_alive : Bool) (secs : Option ℕ)
    → connection_text keep_alive secs ≡ text_of (connection_lines keep_alive secs)
unfolding connection_text connection_lines text_of
connection_text_lem false secs = refl
connection_text_lem true none = refl
connection_text_lem true (some secs) =
    ap (λ t. codes "Connection: keep-alive" ++ (crlf ++ t))
      (sym (append_assoc (codes "Keep-Alive: timeout=") (int_text secs) (crlf ++ crlf)))

connection_lines-plain :
    (keep_alive : Bool) (secs : Option ℕ)
    → IsInt64 secs
    → All (λ l. plain l ≡ true) (connection_lines keep_alive secs)
unfolding connection_lines
connection_lines-plain false secs h = (refl, tt)
connection_lines-plain true none h = (refl, tt)
connection_lines-plain true (some secs) h = (
  refl,
  (plain-append (codes "Keep-Alive: timeout=") (int_text secs) refl (int_text-plain secs h), tt),
)

status_text_lem :
    (date : Bytes) (status : ℕ) (headers : List (Bytes × Bytes)) (rest : Bytes)
    (framing : List Bytes)
    → rest ≡ text_of framing
    → status_text date status headers rest ≡ text_of (head_lines date status headers framing)
unfolding status_text head_lines text_of
status_text_lem date status headers rest framing h =
    rw
      (
        h,
        header_text_lem headers framing,
        append_assoc (int_text status) (codes " " ++ reason_phrase status),
        append_assoc (codes " ") (reason_phrase status),
      )
      refl

head_lines-plain :
    (date : Bytes) (status : ℕ) (headers : List (Bytes × Bytes)) (framing : List Bytes)
    → plain date ≡ true
    → status < 2 ^ 63
    → All (λ l. plain l ≡ true) framing
    → All (λ l. plain l ≡ true) (head_lines date status headers framing)
unfolding head_lines reason_phrase
head_lines-plain date status headers framing d s f = (
  plain-append (codes "HTTP/1.1 ") (int_text status ++ (codes " " ++ reason_phrase status)) refl (
      plain-append (int_text status) (codes " " ++ reason_phrase status) (int_text-plain status s) (
        plain-append (codes " ") (reason_phrase status) refl
          (reason-plain listed_reasons status refl))),
  (
    plain-append (codes "Date: ") date refl d,
    All-append (λ l. plain l ≡ true) (map field_line (kept headers)) framing
        (field_line-plain headers) f,
  ),
)

-- With a date in one line and numbers below 2^63, whatever headers the caller gives: a response head is a
-- status line, a date, the caller's headers that the engine does not own and whose name and value are
-- sound, the framing lines and an empty line. No line of them holds a CR or an LF, so that no header can
-- end the head or start another line.
pub build_head_lem :
    (date : Bytes) (status : ℕ) (headers : List (Bytes × Bytes)) (content_length : ℕ)
    (keep_alive : Bool) (secs : Option ℕ)
    → plain date ≡ true
    → status < 2 ^ 63
    → content_length < 2 ^ 63
    → IsInt64 secs
    → (build_head date status headers content_length keep_alive secs
        ≡ text_of
            (head_lines date status headers (framing_lines status content_length keep_alive secs)))
      × All
          (λ l. plain l ≡ true)
          (head_lines date status headers (framing_lines status content_length keep_alive secs))
unfolding build_head
build_head_lem date status headers n keep_alive secs d s c k =
    let tail = connection_lines-plain keep_alive secs k in
    let long = plain-append (codes "Content-Length: ") (int_text n) refl (int_text-plain n c) in
    (
      status_text_lem date status headers _ (framing_lines status n keep_alive secs)
          (elim (Bool-cases (bodyless status)) [
            | inl e ↦ rw e (connection_text_lem keep_alive secs)
            | inr e ↦
                rw (e, connection_text_lem keep_alive secs)
                  (unfold text_of in
                    rw (append_assoc (codes "Content-Length: "), append_assoc (int_text n)) refl)
          ]),
      head_lines-plain date status headers (framing_lines status n keep_alive secs) d s
          (elim (Bool-cases (bodyless status)) [ inl e ↦ rw e tail | inr e ↦ rw e (long, tail) ]),
    )

-- With a date in one line and numbers below 2^63, whatever headers the caller gives: the head of a
-- chunked stream is a status line, a date, the caller's headers that the engine does not own and
-- whose name and value are sound, the transfer coding, the connection's lines and an empty line. No
-- line of them holds a CR or an LF.
pub build_stream_head_lem :
    (date : Bytes) (status : ℕ) (headers : List (Bytes × Bytes)) (keep_alive : Bool)
    (secs : Option ℕ)
    → plain date ≡ true
    → status < 2 ^ 63
    → IsInt64 secs
    → (build_stream_head date status headers keep_alive secs
        ≡ text_of (
            head_lines date status headers
              (codes "Transfer-Encoding: chunked" ∷ connection_lines keep_alive secs)))
      × All
          (λ l. plain l ≡ true)
          (head_lines date status headers
            (codes "Transfer-Encoding: chunked" ∷ connection_lines keep_alive secs))
unfolding build_stream_head
build_stream_head_lem date status headers keep_alive secs d s k =
    let framing = codes "Transfer-Encoding: chunked" ∷ connection_lines keep_alive secs in
    (
      status_text_lem date status headers _ framing
          (unfold text_of in rw (connection_text_lem keep_alive secs) refl),
      head_lines-plain date status headers framing d s
          (refl, connection_lines-plain keep_alive secs k),
    )
