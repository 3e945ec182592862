-- ===== src/Remote/Sending/Duration.antt =====
-- How long a round of sending can take.
use zeus_gslb.Prelude.{ℕ, zero, suc, ◌+◌, ◌≤◌, ◌≡◌, ◌⊎◌}
use zeus_gslb.Prelude.Dict.{Dict}
use zeus_gslb.Remote.Client.{HttpClient}
use zeus_gslb.Remote.Sending.{report_backoff}

-- The waits of a round that never succeeds.
abbrev all_waits : ℕ → ℕ → ℕ
all_waits zero attempt = 0
all_waits (suc left) attempt = report_backoff (attempt + 1) + all_waits left (attempt + 1)

-- What net/http says of `Timeout`: a request takes no longer, unless it is zero.
abbrev pub KeepsTimeout : HttpClient → ℕ → Type 0
KeepsTimeout http took = (http.timeout ≡ 0) ⊎ (took ≤ http.timeout)
