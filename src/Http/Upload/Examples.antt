-- ===== src/Http/Upload/Examples.antt =====
-- A streamed upload at a concrete read.
use nitro_server.Base.{true, false, some, ◌++◌, arith}
use nitro_server.Base.Text.{Bytes, codes}
use nitro_server.Http.{crlf}
use nitro_server.Http.Upload.{Upload, emit_chunked}
use nitro_server.Http.Upload.Bounded.{IsRead, emit_chunked-IsRead}

abbrev fresh_upload : Upload
fresh_upload = record {
  chunk_remaining = 0;
  need_crlf = false;
  total = 0;
  stream_max = some 4;
  has_sink = true;
  streaming = true;
  closing = false;
  body_remaining = 0;
}

-- Two chunks, the second past the cap.
abbrev two_chunks : Bytes
two_chunks = codes "3" ++ (crlf ++ (codes "abc" ++ (crlf ++ (codes "2" ++ (crlf ++ codes "de")))))

emit_chunked-IsRead_example :
    IsRead fresh_upload
      (emit_chunked fresh_upload two_chunks).1.0
      (emit_chunked fresh_upload two_chunks).1.1
emit_chunked-IsRead_example = emit_chunked-IsRead fresh_upload two_chunks (omega arith)
