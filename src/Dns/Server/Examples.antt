-- ===== src/Dns/Server/Examples.antt =====
-- A run in which the TCP port is taken.
use zeus_gslb.Prelude.{Text, text, length, ◌+◌, ◌≤◌, ◌≡◌, refl, arith, true, Option, some, [], ◌∷◌}
use zeus_gslb.Dns.Server.{
  sent, returned, by_listener, Server, err_ch_capacity, started, run_named, shutdown, exit_status,
  tcp_returns, tcp_sends, takes_error,
}
use zeus_gslb.Dns.Server.Shutdown.{Reachable, IsOver, unsent, start, then_step, run_ends}

abbrev in_use : Option Text
in_use = some (text "address already in use")

abbrev tcp_error : Option Text
unfolding run_named
tcp_error = run_named (text "tcp") in_use

abbrev failed : Server
unfolding started
failed = record started { tcp = returned tcp_error }

abbrev queued : Server
queued = record failed { tcp = sent; err_ch = tcp_error ∷ [] }

abbrev back : Server
back = record queued {
  err_ch = [];
  phase = by_listener tcp_error;
  udp_stopped = true;
  tcp_stopped = true;
}

reaches_back : Reachable back
unfolding started shutdown run_named
reaches_back =
    then_step queued back
      (then_step failed queued (then_step started failed start (tcp_returns in_use refl))
        (tcp_sends tcp_error refl (omega arith)))
      (takes_error tcp_error [] refl refl)

exits_with_one : exit_status back ≡ some 1
unfolding exit_status tcp_error failed
exits_with_one = refl

run_ends_example :
    IsOver back.phase back
    × (length back.err_ch + (unsent back.udp + unsent back.tcp) ≤ err_ch_capacity)
run_ends_example = run_ends back reaches_back
