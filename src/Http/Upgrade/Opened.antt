-- ===== src/Http/Upgrade/Opened.antt =====
-- The sessions that `wsHandshake` of src/engine/UvReactor.cpp opens.
use nitro_server.Base.{
  ℕ, ◌+◌, ◌≡◌, refl, sym, subst, Bool, true, false, ◌&&◌, not, Option, none, some, List, [], ◌∷◌,
  bytes_eq, bytes_eq→eq, length, inl, inr, arith, InList, Bool-cases, Option-cases, &&-true,
}
use nitro_server.Base.Text.{Bytes, codes}
use nitro_server.Ws.Session.{Session}
use nitro_server.Http.Fields.{Header, find_header, is_empty, trim, tokens}
use nitro_server.Http.Upgrade.Written.{each_line, answer_lines, shake-each_line}
use nitro_server.Http.Upgrade.Offer.{
  IsKeyText, valid_key-IsKeyText, is_13-some, IsCompressed, takes_deflate-IsCompressed,
}
use nitro_server.Http.Upgrade.{
  valid_key, any_equal, select, negotiate, takes_deflate, shake, open_session, opened, is_13,
  switch_to, handshake,
}

any_equal-InList : (want : Bytes) (ts : List Bytes) → any_equal want ts ≡ true → InList want ts
any_equal-InList want [] h = cc
any_equal-InList want (t ∷ ts) h = elim (Bool-cases (bytes_eq t want)) [
  | inl e ↦ inl (bytes_eq→eq t want e)
  | inr e ↦ inr (any_equal-InList want ts (ground (arith, h, e)))
]

-- The first of the route's protocols that was offered.
pub select-InList :
    (wants offered : List Bytes)
    → is_empty (select wants offered) ≡ false
    → InList (select wants offered) wants × InList (select wants offered) offered
unfolding select
select-InList [] offered h = cc
select-InList (want ∷ wants) offered h =
    elim (Bool-cases (not (is_empty want) && any_equal want offered)) [
      | inl e ↦
          let (full, there) = &&-true (not (is_empty want)) (any_equal want offered) e in
          rw (select, e) (inl refl, any_equal-InList want offered there)
      | inr e ↦
          let (one, two) = select-InList wants offered (rw (select, e) at h) in
          let skipped : select (want ∷ wants) offered ≡ select wants offered =
            rw (select, e) refl in
          subst (λ p. InList p (want ∷ wants) × InList p offered) (sym skipped) (inr one, two)
    ]

-- A protocol that is agreed on: none, or one that both sides name. None is agreed on only when the
-- route names none or the client offers none.
pub data IsAgreed (wants : List Bytes) (offer : Option Bytes) (protocol : Bytes) : Type 0 where
  no_wants : wants ≡ [] → protocol ≡ [] → IsAgreed wants offer protocol
  no_offer : offer ≡ none → protocol ≡ [] → IsAgreed wants offer protocol
  blank_offer :
      (o : Bytes)
      → offer ≡ some o
      → is_empty (trim o) ≡ true
      → protocol ≡ []
      → IsAgreed wants offer protocol
  agreed :
      (o : Bytes)
      → offer ≡ some o
      → InList protocol wants
      → InList protocol (tokens o)
      → IsAgreed wants offer protocol

negotiate-IsAgreed :
    (wants : List Bytes) (offer : Option Bytes) (protocol : Bytes)
    → negotiate wants offer ≡ some protocol
    → IsAgreed wants offer protocol
unfolding negotiate
negotiate-IsAgreed [] offer protocol e = no_wants refl cc
negotiate-IsAgreed (want ∷ wants) none protocol e = no_offer refl cc
negotiate-IsAgreed (want ∷ wants) (some o) protocol e = elim (Bool-cases (is_empty (trim o))) [
  | inl a ↦
      let same : ◌≡◌ {A = Option Bytes} (some []) (some protocol) = rw (negotiate, a) at e in
      blank_offer o refl a cc
  | inr a ↦ elim (Bool-cases (is_empty (select (want ∷ wants) (tokens o)))) [
    | inl b ↦ let clash = rw (negotiate, a, b) at e in absurd cc
    | inr b ↦
        let same : ◌≡◌ {A = Option Bytes} (some (select (want ∷ wants) (tokens o)))
            (some protocol) =
          rw (negotiate, a, b) at e in
        let is : select (want ∷ wants) (tokens o) ≡ protocol = cc in
        let (one, two) = select-InList (want ∷ wants) (tokens o) b in
        agreed o refl (subst (λ p. InList p (want ∷ wants)) is one)
          (subst (λ p. InList p (tokens o)) is two)
  ]
]

-- A session just opened: not closing, with no message in parts.
pub record IsFresh (has_sink : Bool) (written : ℕ) (s : Session) : Type 0 where
  pub sink : s.has_sink ≡ has_sink
  pub not_closing : s.closing ≡ false
  pub not_ws_closing : s.ws_closing ≡ false
  pub no_msg : s.msg ≡ []
  pub no_opcode : s.msg_opcode ≡ none
  pub plain : s.msg_compressed ≡ false
  pub queued : s.write_pending ≡ written

module _ (date : Bytes) (compression has_sink : Bool) (protocols : List Bytes)
    (headers : List Header) (pending : ℕ) where
  -- A session with the key, the version and the protocol that it rests on.
  pub record IsOpened (answer : Bytes) (s : Session) : Type 0 where
    pub key : Bytes
    pub key_there : find_header headers (codes "sec-websocket-key") ≡ some key
    pub key_text : IsKeyText (trim key)
    pub version : Bytes
    pub version_there : find_header headers (codes "sec-websocket-version") ≡ some version
    pub version_13 : trim version ≡ codes "13"
    pub protocol : Bytes
    pub both : IsAgreed protocols (find_header headers (codes "sec-websocket-protocol")) protocol
    pub answered : answer ≡ each_line (answer_lines key s.deflate protocol)
    pub compressed :
        IsCompressed compression (find_header headers (codes "sec-websocket-extensions")) s.deflate
    pub fresh : IsFresh has_sink (pending + length answer) s

  switch_to-IsOpened :
      (key version protocol : Bytes)
      → find_header headers (codes "sec-websocket-key") ≡ some key
      → IsKeyText (trim key)
      → find_header headers (codes "sec-websocket-version") ≡ some version
      → trim version ≡ codes "13"
      → negotiate protocols (find_header headers (codes "sec-websocket-protocol")) ≡ some protocol
      → (let offer = find_header headers (codes "sec-websocket-extensions") in
          let deflate = takes_deflate compression offer in
          let text = shake key deflate protocol in
          IsOpened text (open_session deflate has_sink (pending + length text)))
  switch_to-IsOpened key version protocol there key_text version_there version_13 agrees = record {
    key = key;
    key_there = there;
    key_text = key_text;
    version = version;
    version_there = version_there;
    version_13 = version_13;
    protocol = protocol;
    both = negotiate-IsAgreed protocols _ protocol agrees;
    answered = shake-each_line key _ protocol;
    compressed = takes_deflate-IsCompressed compression _;
    fresh = record {
      sink = refl;
      not_closing = refl;
      not_ws_closing = refl;
      no_msg = refl;
      no_opcode = refl;
      plain = refl;
      queued = refl;
    };
  }

  -- A session is opened only for a key of 22 base64 characters and `==`, and for version 13, blanks
  -- around them aside; the protocol in the answer is one that the route accepts and the client
  -- offers, and it is absent only when the route accepts none or the client offers none; compression
  -- is on exactly where the server has it on and the client's extensions hold `permessage-deflate`;
  -- the answer is the lines of a switch of protocols with the accept value of the key, with the
  -- extension where compression is on and the protocol where there is one; and the session starts
  -- out open, with no message in parts and the answer's bytes pending.
  pub handshake-IsOpened :
      (answer : Bytes) (s : Session)
      → handshake date compression has_sink protocols headers pending ≡ opened answer s
      → IsOpened answer s
  unfolding handshake switch_to
  handshake-IsOpened answer s e =
      elim (Option-cases (find_header headers (codes "sec-websocket-key"))) [
        | inl a ↦ let clash = rw (handshake, a) at e in absurd cc
        | inr (key, a) ↦ elim (Bool-cases (valid_key (trim key))) [
          | inr b ↦ let clash = rw (handshake, a, b) at e in absurd cc
          | inl b ↦
              elim (Bool-cases (is_13 (find_header headers (codes "sec-websocket-version")))) [
                | inr c ↦ let clash = rw (handshake, a, b, c) at e in absurd cc
                | inl c ↦
                    elim (Option-cases (
                      negotiate protocols (find_header headers (codes "sec-websocket-protocol")))) [
                        | inl d ↦
                            let clash = rw (handshake, a, b, c, d, switch_to) at e in absurd cc
                        | inr (protocol, d) ↦
                            let (version, there, is) = is_13-some _ c in
                            let deflate =
                              takes_deflate compression
                                (find_header headers (codes "sec-websocket-extensions")) in
                            let text = shake key deflate protocol in
                            let start = open_session deflate has_sink (pending + length text) in
                            let same : opened text start ≡ opened answer s =
                              rw (handshake, a, b, c, d, switch_to) at e in
                            let one : text ≡ answer = cc in
                            let two : start ≡ s = cc in
                            subst (λ r. IsOpened r s) one
                              (subst (λ t. IsOpened text t) two
                                (switch_to-IsOpened key version protocol a
                                  (valid_key-IsKeyText (trim key) b) there is d))
                      ]
              ]
        ]
      ]
