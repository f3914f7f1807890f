-- ===== src/Ws/Session/Examples.antt =====
-- Tests of the WebSocket session, and the theorems on it at concrete inputs.
use nitro_server.Base.{◌≡◌, refl, true, false, none, [], ◌∷◌, ◌++◌, All, arith, inl}
use nitro_server.Base.Text.{Bytes, codes}
use nitro_server.Ws.Frame.{parse_header, read_length, read_mask, is_control, known_opcode}
use nitro_server.Ws.Utf8.{valid_utf8, valid_utf8_loop}
use nitro_server.Ws.Session.{
  Session, Limits, message, track, max_msg, after, process, process_loop, turn, with_header,
  is_broken, unmask, on_frame, on_data, grown, deliver, is_bad_text,
}
use nitro_server.Ws.Session.Rest.{IsAtRest, process-IsAtRest}
use nitro_server.Ws.Session.Split.{process-append}
use nitro_server.Ws.Session.Deliver.{IsKept, IsDelivered, process-IsDelivered}
use nitro_server.Ws.Session.Stuck.{process_stuck}

abbrev limits_16 : Limits
limits_16 = record { max_body_bytes = 16; ws_max_buffer_bytes = 0 }

abbrev compressing : Session
compressing = record {
  deflate = true;
  has_sink = true;
  closing = false;
  ws_closing = false;
  msg = [];
  msg_opcode = none;
  msg_compressed = false;
  write_pending = 0;
}

-- A masked text message, `hi` under the key 1, 2, 3, 4, and the first three bytes of another.
abbrev hi_frame : Bytes
hi_frame = 0x81 ∷ 0x82 ∷ 1 ∷ 2 ∷ 3 ∷ 4 ∷ 105 ∷ 107 ∷ []

abbrev half_frame : Bytes
half_frame = 0x81 ∷ 0x82 ∷ 1 ∷ []

-- The message is delivered whole.
hi_delivered :
    (process limits_16 compressing hi_frame).actions
    ≡ track (codes "hi") ∷ message (codes "hi") 1 0 ∷ []
unfolding process process_loop turn with_header is_broken unmask on_frame on_data grown deliver
    is_bad_text max_msg parse_header read_length read_mask is_control known_opcode valid_utf8
    valid_utf8_loop
hi_delivered = refl

process-IsAtRest_example :
    IsAtRest limits_16 (process limits_16 compressing (hi_frame ++ half_frame))
process-IsAtRest_example = process-IsAtRest limits_16 compressing (hi_frame ++ half_frame)

process-append_example :
    process limits_16 compressing (half_frame ++ hi_frame)
    ≡ after (process limits_16 compressing half_frame).actions (
        process limits_16
          (process limits_16 compressing half_frame).session
          ((process limits_16 compressing half_frame).left ++ hi_frame))
process-append_example = process-append limits_16 compressing half_frame hi_frame

process-IsDelivered_example :
    IsKept (max_msg limits_16) (process limits_16 compressing hi_frame).session
    × All (IsDelivered (max_msg limits_16)) (process limits_16 compressing hi_frame).actions
process-IsDelivered_example =
    process-IsDelivered limits_16 compressing hi_frame (tt, λ still_open. omega arith)

-- A masked ping with RSV1 set, and one more ping behind it.
process_stuck_example :
    process limits_16 compressing (0xc9 ∷ 0x80 ∷ 1 ∷ 2 ∷ 3 ∷ 4 ∷ 0x89 ∷ 0x80 ∷ 1 ∷ 2 ∷ 3 ∷ 4 ∷ [])
    ≡ record {
      left = 0xc9 ∷ 0x80 ∷ 1 ∷ 2 ∷ 3 ∷ 4 ∷ 0x89 ∷ 0x80 ∷ 1 ∷ 2 ∷ 3 ∷ 4 ∷ [];
      session = compressing;
      actions = [];
    }
unfolding is_broken is_control known_opcode
process_stuck_example =
    process_stuck limits_16 compressing 0xc9 0x80 (1 ∷ 2 ∷ 3 ∷ 4 ∷ 0x89 ∷ 0x80 ∷ 1 ∷ 2 ∷ 3 ∷ 4 ∷ [])
      refl (inl (refl, refl))
