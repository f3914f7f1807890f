-- ===== src/Http/Reason.antt =====
-- `reasonPhrase` of src/engine/Common.h.
use nitro_server.Base.{ℕ, List, [], ◌∷◌, if◌then◌else◌, leb, ◌==◌}
use nitro_server.Base.Text.{Bytes, codes}

abbrev pub listed_reasons : List (ℕ × Bytes)
listed_reasons =
    (100, codes "Continue")
    ∷ (101, codes "Switching Protocols")
    ∷ (200, codes "OK")
    ∷ (201, codes "Created")
    ∷ (202, codes "Accepted")
    ∷ (204, codes "No Content")
    ∷ (206, codes "Partial Content")
    ∷ (301, codes "Moved Permanently")
    ∷ (302, codes "Found")
    ∷ (303, codes "See Other")
    ∷ (304, codes "Not Modified")
    ∷ (307, codes "Temporary Redirect")
    ∷ (308, codes "Permanent Redirect")
    ∷ (400, codes "Bad Request")
    ∷ (401, codes "Unauthorized")
    ∷ (403, codes "Forbidden")
    ∷ (404, codes "Not Found")
    ∷ (405, codes "Method Not Allowed")
    ∷ (406, codes "Not Acceptable")
    ∷ (408, codes "Request Timeout")
    ∷ (409, codes "Conflict")
    ∷ (410, codes "Gone")
    ∷ (411, codes "Length Required")
    ∷ (412, codes "Precondition Failed")
    ∷ (413, codes "Content Too Large")
    ∷ (414, codes "URI Too Long")
    ∷ (415, codes "Unsupported Media Type")
    ∷ (416, codes "Range Not Satisfiable")
    ∷ (417, codes "Expectation Failed")
    ∷ (422, codes "Unprocessable Content")
    ∷ (426, codes "Upgrade Required")
    ∷ (428, codes "Precondition Required")
    ∷ (429, codes "Too Many Requests")
    ∷ (431, codes "Request Header Fields Too Large")
    ∷ (500, codes "Internal Server Error")
    ∷ (501, codes "Not Implemented")
    ∷ (502, codes "Bad Gateway")
    ∷ (503, codes "Service Unavailable")
    ∷ (504, codes "Gateway Timeout")
    ∷ (505, codes "HTTP Version Not Supported")
    ∷ []

abbrev pub other_reason : ℕ → Bytes
other_reason status =
    if leb 500 status
    then codes "Server Error"
    else if leb 400 status
    then codes "Client Error"
    else if leb 300 status
    then codes "Redirection"
    else if leb 200 status
    then codes "Success"
    else codes "Informational"

-- The cases of the `switch`, in order, and its default.
unfoldable pub reason_in : List (ℕ × Bytes) → ℕ → Bytes
reason_in [] status = other_reason status
reason_in ((code, phrase) ∷ more) status = if status == code then phrase else reason_in more status

unfoldable pub reason_phrase : ℕ → Bytes
reason_phrase status = reason_in listed_reasons status
