-- ===== src/Lightos/Client/Pace.antt =====
-- Every command of the client ends: an answer or an exception, whatever the servers do.
use chef_bcpc.Prelude.{ℕ, ◌-◌, String, Option, none, some}
use chef_bcpc.Run.{Done, or_raise, ◌>>=◌, unknown_cmd, volume_driver}
use chef_bcpc.Run.Loop.{Step, again, leave, while_until}
use chef_bcpc.Run.Pace.{
  Paced, Halts, Ticks, Halts-pure, Paced-raise, Halts-gets, Halts-or_raise, Halts-modify,
  Paced-bind, Ticks-bind, Paced-bind_cost,
}
use chef_bcpc.Run.Pace.Loops.{left, left-while_until}
use chef_bcpc.Lightos.Command.{Kwargs, generate_lightos_cmd}
use chef_bcpc.Lightos.Session.{Env, IsTimed, Reply, Wire, ApiServer, clock}
use chef_bcpc.Lightos.Client.{
  exchange, prepare, send_to, next_server, answered, send_round, or_no_response, send_cmd,
}

module _ (E : Env) (timed : IsTimed E) where
  exchange-Ticks : (server : ApiServer) (wire : Wire) → Ticks (clock E) (exchange E server wire)
  unfolding exchange
  exchange-Ticks server wire = record { at = λ s. timed.send_takes wire s.world }

  send_to-Ticks :
      (cmd : String) (kw : Kwargs) (server : ApiServer) → Ticks (clock E) (send_to E cmd kw server)
  unfolding send_to
  send_to-Ticks cmd kw server =
      Paced-bind (clock E) (λ _. 1) (or_raise unknown_cmd (generate_lightos_cmd cmd kw))
        (λ r. exchange E server (prepare E server kw r))
        (Halts-or_raise (clock E) unknown_cmd (generate_lightos_cmd cmd kw))
        (λ r. exchange-Ticks server (prepare E server kw r))

  next_server-Halts : (start : ℕ) → Halts (clock E) (next_server E start)
  unfolding next_server
  next_server-Halts start = search (Paced-bind, Halts-modify, Halts-gets, Halts-pure)

  answered-Halts : (start : ℕ) (reply : Option Reply) → Halts (clock E) (answered E start reply)
  answered-Halts start none = next_server-Halts start
  answered-Halts start (some r) = Halts-pure (clock E) (leave (some r))

  send_round-Ticks :
      (cmd : String) (kw : Kwargs) (start : ℕ) (u : Done)
      → Ticks (clock E) (send_round E cmd kw start u)
  unfolding send_round
  send_round-Ticks cmd kw start u =
      search (Paced-bind, Ticks-bind, Halts-gets, Halts-or_raise, send_to-Ticks, answered-Halts)

  or_no_response-Paced :
      (last : Step Done (Option Reply))
      → Paced (clock E) (λ _. 1 - left (clock E) last) (or_no_response E last)
  or_no_response-Paced (leave (some reply)) = Halts-pure (clock E) reply
  or_no_response-Paced (leave none) = Paced-raise (clock E) _ volume_driver
  or_no_response-Paced (again u) = Paced-raise (clock E) _ volume_driver

  answer-Ticks :
      (cmd : String) (stop : ℕ) (kw : Kwargs) (start : ℕ)
      → Ticks
          (clock E)
          (while_until (clock E) stop (send_round E cmd kw start) tt >>= or_no_response E)
  answer-Ticks cmd stop kw start =
      Paced-bind_cost (clock E) (left (clock E)) (λ _. 1) _ (or_no_response E)
        (left-while_until (clock E) stop (send_round E cmd kw start) tt
          (send_round-Ticks cmd kw start))
        or_no_response-Paced

  -- `send_cmd` ends, by an answer or an exception, and an answer took a tick of the clock.
  pub send_cmd-Ticks :
      (cmd : String) (timeout : ℕ) (kw : Kwargs) → Ticks (clock E) (send_cmd E cmd timeout kw)
  unfolding send_cmd
  send_cmd-Ticks cmd timeout kw = search (Paced-bind, Halts-gets, answer-Ticks)
