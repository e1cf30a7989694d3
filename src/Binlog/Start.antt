-- ===== src/Binlog/Start.antt =====
-- internal/binlog/client.go: where the stream starts. `StartSync` takes an empty name and position
-- when the position to resume from is not complete.
use logs_tracker.Prelude.{ℕ, String, not, ◌&&◌, ltb, str_eq, if◌then◌else◌}
use logs_tracker.Source.{Position}
use logs_tracker.Binlog.Reader.{Reader}

unfoldable pub resume_from : Position → Reader → Reader
resume_from p r = record r { current_pos = p }

-- The position in `Stream`.
unfoldable pub start_position : Reader → String × ℕ
start_position r =
    if not (str_eq r.current_pos.file "") && ltb 0 r.current_pos.position
    then (r.current_pos.file, r.current_pos.position)
    else ("", 0)
