-- ===== src/Comm/HealthExamples.antt =====
-- A connection in order at concrete inputs.
use mathlib.Core.Path.{subst}
use x_pilot.Base.{All, ℕ, ◌≤◌, ◌≡◌, refl, some, [], ◌∷◌, arith, done}
use x_pilot.Base.Word.{htonl, ntohl}
use x_pilot.Platform.Sample.{sample_json, sample_socket}
use x_pilot.Effects.{sent, closes, opened}
use x_pilot.Protocol.{parse_frame}
use x_pilot.Tcp.{on_data_received, connected, check_heartbeat_timeout}
use x_pilot.Tcp.Sending.{heartbeat, send_heartbeat}
use x_pilot.Tcp.Receiving.{recv, drain}
use x_pilot.Comm.{Comm, reconnect_tcp, reconnect_ipc, beat}
use x_pilot.Comm.Events.{tcp_received, handle_all, handle, tcp_event, tcp_readable}
use x_pilot.Comm.Rounds.{Round, Wait, events, interrupted_wait, before_wait, main_loop}
use x_pilot.Ipc.{client_send_frame, client_recv_frame}
use x_pilot.Comm.Health.{IsFine, IsFineRound, no_false_alarm}
use x_pilot.Comm.TimeoutExamples.{in_touch, round_at, data_event}

-- A round that sends the heartbeat of the time 100, or would.
abbrev fine_round : ℕ → Wait sample_json sample_socket → Round sample_json sample_socket
fine_round t w = record (round_at t w) {
  beat_answer = record { header = some 4; payload = some 2; send_fail_time = t };
}

abbrev heard : Wait sample_json sample_socket
heard = events (data_event (0 ∷ 0 ∷ 0 ∷ 1 ∷ 49 ∷ []) ∷ [])

abbrev after_heard : Comm
after_heard = record in_touch {
  tcp = record in_touch.tcp { last_recv_time = 103 };
  ipc = record {
    sock_fd = some 4;
    trace = sent 4 (49 ∷ []) ∷ sent 4 (0 ∷ 0 ∷ 0 ∷ 1 ∷ []) ∷ opened 4 ∷ [];
  };
}

heard_runs :
    main_loop sample_json sample_socket in_touch
      (fine_round 102 heard ∷ fine_round 104 interrupted_wait ∷ [])
    ≡ done after_heard
unfolding main_loop before_wait reconnect_tcp reconnect_ipc beat send_heartbeat
    check_heartbeat_timeout handle_all handle tcp_event tcp_readable recv drain parse_frame ntohl
    tcp_received on_data_received client_send_frame htonl
heard_runs = refl

data_heard : IsFine sample_json sample_socket 5 100 5 (data_event (0 ∷ 0 ∷ 0 ∷ 1 ∷ 49 ∷ []))
unfolding client_recv_frame
data_heard = record { whole = λ e. (refl, refl); later = omega arith; taken = λ j e. cc }

round_heard : IsFineRound sample_json sample_socket 5 100 5 (fine_round 102 heard)
unfolding heartbeat
round_heard = record {
  beat_taken = (refl, refl);
  in_time = omega arith;
  all_fine = λ es e.
      let same : data_event (0 ∷ 0 ∷ 0 ∷ 1 ∷ 49 ∷ []) ∷ [] ≡ es = cc in
      subst (All (IsFine sample_json sample_socket 5 100 5)) same (data_heard, tt);
}

no_false_alarm_example :
    (after_heard.tcp.state ≡ connected)
    × (after_heard.tcp.sock_fd ≡ some 5)
    × (closes 5 after_heard.tcp.trace ≡ closes 5 in_touch.tcp.trace)
    × (in_touch.tcp.last_recv_time ≤ after_heard.tcp.last_recv_time)
unfolding heartbeat
no_false_alarm_example =
    no_false_alarm sample_json sample_socket
      (fine_round 102 heard ∷ fine_round 104 interrupted_wait ∷ []) in_touch after_heard 5 refl refl
      (omega arith)
      (
        round_heard,
        (record { beat_taken = (refl, refl); in_time = omega arith; all_fine = λ es e. cc }, tt),
      )
      heard_runs
