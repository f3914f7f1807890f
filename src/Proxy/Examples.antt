-- ===== src/Proxy/Examples.antt =====
-- Concrete PROXY headers, with an `inet_pton` that accepts every address.
use nitro_server.Base.{
  ◌<◌, ◌≡◌, refl, Bool, true, false, Option, some, List, [], ◌∷◌, ◌++◌, bytes_eq, All, arith,
}
use nitro_server.Base.Text.{Bytes, codes}
use nitro_server.Http.Crlf.{find_crlf, starts_crlf}
use nitro_server.Http.Request.{digits_value}
use nitro_server.Proxy.{
  parsed, Family, inet, parse_proxy, parse_v1, v1_line, v1_address, split_spaces, is_port, c_str,
}
use nitro_server.Proxy.Stable.{is_more, parse_proxy-append}
use nitro_server.Proxy.Bounds.{Within, header_limit, parse_proxy-Within}
use nitro_server.Proxy.Written.{proxy_line, parse_proxy-proxy_line}

abbrev any_text : Family → Bytes → Option Bytes
any_text family raw = some raw

abbrev any_address : Family → Bytes → Bool
any_address family text = true

abbrev client : List Bytes
client = codes "10.0.0.1" ∷ codes "10.0.0.2" ∷ codes "4000" ∷ codes "80" ∷ []

abbrev client_header : Bytes
client_header = proxy_line (codes "TCP4") client ++ (0x0d ∷ 0x0a ∷ [])

port_80 : is_port (codes "80") ≡ true
unfolding is_port digits_value
port_80 = refl

port_4000 : is_port (codes "4000") ≡ true
unfolding is_port digits_value
port_4000 = refl

parse_proxy-proxy_line_example :
    parse_proxy any_text any_address
      (proxy_line (codes "TCP4") client ++ (0x0d ∷ 0x0a ∷ codes "GET"))
    ≡ parsed (codes "10.0.0.1") 38
unfolding bytes_eq
parse_proxy-proxy_line_example =
    parse_proxy-proxy_line any_text any_address inet (codes "TCP4") (codes "10.0.0.1")
      (codes "10.0.0.2") (codes "4000") (codes "80") (codes "GET") refl refl refl refl refl
      port_4000 port_80 (omega arith)

client_header_whole : is_more (parse_proxy any_text any_address client_header) ≡ false
unfolding parse_proxy parse_v1 v1_line v1_address split_spaces find_crlf starts_crlf bytes_eq
    is_port digits_value c_str
client_header_whole = refl

parse_proxy-append_example :
    parse_proxy any_text any_address (client_header ++ codes "GET")
    ≡ parse_proxy any_text any_address client_header
parse_proxy-append_example =
    parse_proxy-append any_text any_address client_header (codes "GET") client_header_whole

client_header_bytes : All (λ c. c < 256) (codes "PROXY")
client_header_bytes = (omega arith, (omega arith, (omega arith, (omega arith, (omega arith, tt)))))

parse_proxy-Within_example : Within 108 5 (parse_proxy any_text any_address (codes "PROXY"))
unfolding header_limit bytes_eq
parse_proxy-Within_example =
    parse_proxy-Within any_text any_address (codes "PROXY") client_header_bytes
