-- ===== src/Lightos/Client/Answers.antt =====
-- The answer that `send_cmd` returns is that of the last request on record.
use chef_bcpc.Prelude.{
  ℕ, ◌+◌, String, Bool, true, false, Option, none, some, List, ◌∷◌, ◌≡◌, inl, inr, get_elem?,
  if◌then◌else◌,
}
use chef_bcpc.Run.{
  Done, pure, gets, modify, or_raise, ◌>>=◌, index_error, unknown_cmd, volume_driver,
}
use chef_bcpc.Run.Loop.{Step, again, leave, while_until}
use chef_bcpc.Run.Returns.{Gave, bind-Gave, pure-Gave, raise-Gave, while_until-Gave}
use chef_bcpc.Lightos.Command.{Kwargs, generate_lightos_cmd}
use chef_bcpc.Lightos.Session.{
  Env, Session, Reply, Wire, ApiServer, Exchange, clock, init_api_servers,
}
use chef_bcpc.Lightos.Client.{
  prepare, exchange, send_to, next_server, answered, send_round, or_no_response, send_cmd,
}

abbrev pub left_with : Reply → Step Done (Option Reply)
left_with reply = leave (some reply)

module _ (E : Env) where
  -- The last request on record was answered by `reply`.
  pub record LastReply (t : Session E) (reply : Reply) : Type 0 where
    pub last : Exchange
    pub older : List Exchange
    pub recorded : t.exchanges ≡ last ∷ older
    pub answer : last.reply ≡ some reply

  exchange-LastReply :
      (server : ApiServer) (wire : Wire) (s : Session E) (reply : Reply) (t : Session E)
      → Gave (exchange E server wire s) (some reply) t
      → LastReply t reply
  unfolding exchange
  exchange-LastReply server wire s reply t h = record {
    last = record { server = server; wire = wire; reply = (E.send wire s.world).0 };
    older = s.exchanges;
    recorded = cc (h.1);
    answer = cc (h.0);
  }

  send_to-LastReply :
      (cmd : String) (kw : Kwargs) (server : ApiServer) (s : Session E) (reply : Reply)
      (t : Session E)
      → Gave (send_to E cmd kw server s) (some reply) t
      → LastReply t reply
  unfolding send_to
  send_to-LastReply cmd kw server s reply t h =
      let (r, _, g) = bind-Gave (or_raise unknown_cmd (generate_lightos_cmd cmd kw)) _ s _ t h in
      exchange-LastReply server (prepare E server kw r) _ reply t g

  not_left :
      (b : Bool) (reply : Reply) (s t : Session E)
      → Gave (pure (if b then leave none else again tt) s) (left_with reply) t
      → ⊥
  unfolding pure
  not_left true reply s t h = cc (h.0)
  not_left false reply s t h = cc (h.0)

  next_server-not_left :
      (start : ℕ) (reply : Reply) (s t : Session E)
      → Gave (next_server E start s) (leave (some reply)) t
      → ⊥
  unfolding next_server modify gets ◌>>=◌
  next_server-not_left start reply s t h = not_left _ reply _ t h

  pub answered-LastReply :
      (start : ℕ) (found : Option Reply) (s : Session E) (reply : Reply) (t : Session E)
      → Gave (answered E start found s) (leave (some reply)) t
      → (found ≡ some reply) × (s ≡ t)
  answered-LastReply start none s reply t h = absurd (next_server-not_left start reply s t h)
  answered-LastReply start (some r) s reply t h =
      let (e, same) = pure-Gave _ _ s t h in (cc e, same)

  send_round-LastReply :
      (cmd : String) (kw : Kwargs) (start : ℕ) (u : Done) (s : Session E) (reply : Reply)
      (t : Session E)
      → Gave (send_round E cmd kw start u s) (leave (some reply)) t
      → LastReply t reply
  unfolding send_round
  send_round-LastReply cmd kw start u s reply t h =
      let (idx, _, h1) = bind-Gave (gets (λ s. s.cur_api_server_idx)) _ s _ t h in
      let (server, _, h2) =
        bind-Gave (or_raise index_error (get_elem? (init_api_servers E) idx)) _ _ _ t h1 in
      let (found, e, h3) = bind-Gave (send_to E cmd kw server) _ _ _ t h2 in
      let (e', same) = answered-LastReply start found _ reply t h3 in
      send_to-LastReply cmd kw server _ reply t (cc (e, e'), same)

  pub or_no_response-Gave :
      (last : Step Done (Option Reply)) (s : Session E) (reply : Reply) (t : Session E)
      → Gave (or_no_response E last s) reply t
      → (last ≡ leave (some reply)) × (s ≡ t)
  or_no_response-Gave (leave (some r)) s reply t h =
      let (e, same) = pure-Gave r reply s t h in (cc e, same)
  or_no_response-Gave (leave none) s reply t h = absurd (raise-Gave volume_driver reply s t h)
  or_no_response-Gave (again u) s reply t h = absurd (raise-Gave volume_driver reply s t h)

  -- What `send_cmd` returns is the answer to the last request on record.
  pub send_cmd-LastReply :
      (cmd : String) (timeout : ℕ) (kw : Kwargs) (s : Session E) (reply : Reply) (t : Session E)
      → Gave (send_cmd E cmd timeout kw s) reply t
      → LastReply t reply
  unfolding send_cmd
  send_cmd-LastReply cmd timeout kw s reply t h =
      let (start, _, h1) = bind-Gave (gets (λ s. s.cur_api_server_idx)) _ s reply t h in
      let (time, _, h2) = bind-Gave (gets (clock E)) _ _ reply t h1 in
      let (last, e, h3) =
        bind-Gave (while_until (clock E) (time + timeout) (send_round E cmd kw start) tt) _ _ reply
          t h2 in
      let (e', same) = or_no_response-Gave last _ reply t h3 in
      elim (while_until-Gave (send_round E cmd kw start) (clock E) (time + timeout) tt _
        (leave (some reply)) t (cc (e, e'), same)) [
          | inl stopped ↦ cc (stopped.0)
          | inr (u, r, g) ↦ send_round-LastReply cmd kw start u r reply t g
        ]
