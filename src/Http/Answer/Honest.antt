-- ===== src/Http/Answer/Honest.antt =====
-- When src/engine/UvReactor.cpp answers for a path that has no route, and what it hands over.
use nitro_server.Base.{Bool, false, ◌==◌}
use nitro_server.Http.Request.{Request}
use nitro_server.Http.Answer.{Answer, head_answer}

abbrev pub is_404 : Answer → Bool
is_404 (head_answer status headers keep) = status == 404
is_404 a = false
