-- ===== src/Dns/Server.antt =====
-- internal/dnsserver/server.go: `Run` with its two goroutines, the channel of their errors and the
-- context. The listeners are `dns.Server`s of the DNS library: when `ListenAndServe` returns, and
-- with what, is open.
pub mod Shutdown
mod Examples
use zeus_gslb.Prelude.{
  ℕ, Text, text, length, ◌<◌, ◌≡◌, Bool, true, false, Option, none, some, List, [], ◌∷◌, ◌++◌,
}

-- A goroutine of `Run`: in `ListenAndServe`, with a value of `runNamed` to send, or at its end.
pub data Listener : Type 0 where
  serving sent : Listener
  returned : Option Text → Listener

-- Where `Run` is: at its `select`, or back with `ctx.Err()` or with a value of the channel.
pub data Phase : Type 0 where
  selecting by_context : Phase
  by_listener : Option Text → Phase

-- The goroutines, `errCh`, the context, `Run`, and which listeners have been told to shut down.
pub record Server : Type 0 where
  pub udp : Listener
  pub tcp : Listener
  pub err_ch : List (Option Text)
  pub cancelled : Bool
  pub phase : Phase
  pub udp_stopped : Bool
  pub tcp_stopped : Bool

abbrev pub err_ch_capacity : ℕ
err_ch_capacity = 2

unfoldable pub started : Server
started = record {
  udp = serving;
  tcp = serving;
  err_ch = [];
  cancelled = false;
  phase = selecting;
  udp_stopped = false;
  tcp_stopped = false;
}

-- The error of a listener under its name, none for nil.
unfoldable pub run_named : Text → Option Text → Option Text
run_named name none = none
run_named name (some e) = some (name ++ (text " listener: " ++ e))

unfoldable pub shutdown : Server → Server
shutdown s = record s { udp_stopped = true; tcp_stopped = true }

-- The steps of the goroutines, of the world around them, and of `Run`; the `select` takes either
-- case that is ready.
pub data Step (s : Server) : Server → Type 0 where
  udp_returns :
      (e : Option Text)
      → s.udp ≡ serving
      → Step s (record s { udp = returned (run_named (text "udp") e) })
  tcp_returns :
      (e : Option Text)
      → s.tcp ≡ serving
      → Step s (record s { tcp = returned (run_named (text "tcp") e) })
  udp_sends :
      (e : Option Text)
      → s.udp ≡ returned e
      → length s.err_ch < err_ch_capacity
      → Step s (record s { udp = sent; err_ch = s.err_ch ++ e ∷ [] })
  tcp_sends :
      (e : Option Text)
      → s.tcp ≡ returned e
      → length s.err_ch < err_ch_capacity
      → Step s (record s { tcp = sent; err_ch = s.err_ch ++ e ∷ [] })
  cancels : Step s (record s { cancelled = true })
  takes_done :
      s.phase ≡ selecting → s.cancelled ≡ true → Step s (record (shutdown s) { phase = by_context })
  takes_error :
      (e : Option Text) (rest : List (Option Text))
      → s.phase ≡ selecting
      → s.err_ch ≡ e ∷ rest
      → Step s (record (shutdown s) { err_ch = rest; phase = by_listener e })

-- What `main` makes of the end of `Run`: it exits with 1 on an error while the context lives.
unfoldable pub exit_status : Server → Option ℕ
exit_status s = elim s.phase [
  | selecting ↦ none
  | by_context ↦ some 0
  | by_listener none ↦ some 0
  | by_listener (some e) ↦ some (elim s.cancelled [ true ↦ 0 | false ↦ 1 ])
]
