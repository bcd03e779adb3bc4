-- ===== src/Lifecycle/Statuses.antt =====
-- The service states of internal/cmd/lifecycle.go, and `strings.ToLower` on ASCII letters.
use microbe.Base.{ℕ, ◌+◌, leb, ◌&&◌, [], ◌∷◌, Text, codes, text_eq, ◌||◌, if◌then◌else◌}

abbrev pub status_running : Text
status_running = codes "running"

abbrev pub status_stopped : Text
status_stopped = codes "stopped"

abbrev pub status_healthy : Text
status_healthy = codes "healthy"

abbrev pub status_degraded : Text
status_degraded = codes "degraded"

abbrev pub status_crashed : Text
status_crashed = codes "crashed"

abbrev lower_byte : ℕ → ℕ
lower_byte c = if leb 65 c && leb c 90 then c + 32 else c

unfoldable pub to_lower : Text → Text
to_lower [] = []
to_lower (c ∷ cs) = lower_byte c ∷ to_lower cs

-- `statusColor`
unfoldable pub status_color : Text → Text
status_color status =
    if text_eq status status_running || text_eq status status_healthy
    then codes "32"
    else if text_eq status status_degraded || text_eq status status_crashed
    then codes "31"
    else codes "90"
