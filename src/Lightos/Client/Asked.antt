-- ===== src/Lightos/Client/Asked.antt =====
-- The last request on record is the one of the command that `send_cmd` was called with.
use chef_bcpc.Prelude.{
  ℕ, ◌+◌, String, String-discrete, Bool, true, false, some, List, [], ◌∷◌, ◌++◌, if◌then◌else◌, ◌≡◌,
  refl, inl, inr, get_elem?,
}
use chef_bcpc.Run.{Done, gets, or_raise, index_error, unknown_cmd}
use chef_bcpc.Run.Loop.{leave, while_until}
use chef_bcpc.Run.Returns.{Gave, bind-Gave, or_raise-Gave, while_until-Gave}
use chef_bcpc.Lightos.Command.{Kwargs, Request, generate_lightos_cmd}
use chef_bcpc.Lightos.Session.{Env, Session, Reply, ApiServer, Exchange, clock, init_api_servers}
use chef_bcpc.Json.{truthy, print}
use chef_bcpc.Dict.{Dict, find}
use chef_bcpc.Lightos.Client.{
  headers, has_content, bearer_of, prepare, exchange, send_to, send_round, send_cmd,
}
use chef_bcpc.Lightos.Client.Answers.{answered-LastReply, or_no_response-Gave}

-- The etag stands in a header of its own.
find_etag :
    (content : Bool) (value : String) (rest : Dict String)
    → find "If-Match" (
        ("Accept", "application/json")
        ∷ ("Expect", "")
        ∷ ((if content then ("Content-Type", "application/json") ∷ [] else [])
            ++ (("If-Match", value) ∷ [] ++ rest)))
      ≡ some value
unfolding String-discrete
find_etag true value rest = refl
find_etag false value rest = refl

module _ (E : Env) where
  pub prepare-etag :
      (server : ApiServer) (kw : Kwargs) (r : Request)
      → truthy kw.etag ≡ true
      → find "If-Match" ((prepare E server kw r).headers) ≡ some (print kw.etag)
  unfolding prepare headers
  prepare-etag server kw r h =
      rw h (find_etag (has_content r.method) (print kw.etag) (bearer_of E.config.lightos_jwt))

  -- The last request on record is the command's, and was answered by `reply`.
  pub record Asked (cmd : String) (kw : Kwargs) (t : Session E) (reply : Reply) : Type 0 where
    pub server : ApiServer
    pub request : Request
    pub known : generate_lightos_cmd cmd kw ≡ some request
    pub last : Exchange
    pub older : List Exchange
    pub recorded : t.exchanges ≡ last ∷ older
    pub sent : last.wire ≡ prepare E server kw request
    pub answer : last.reply ≡ some reply

  exchange-Asked :
      (cmd : String) (kw : Kwargs) (server : ApiServer) (r : Request) (s : Session E)
      (reply : Reply) (t : Session E)
      → generate_lightos_cmd cmd kw ≡ some r
      → Gave (exchange E server (prepare E server kw r) s) (some reply) t
      → Asked cmd kw t reply
  unfolding exchange
  exchange-Asked cmd kw server r s reply t e h = record {
    server = server;
    request = r;
    known = e;
    last = record {
      server = server;
      wire = prepare E server kw r;
      reply = (E.send (prepare E server kw r) s.world).0;
    };
    older = s.exchanges;
    recorded = cc (h.1);
    sent = refl;
    answer = cc (h.0);
  }

  send_to-Asked :
      (cmd : String) (kw : Kwargs) (server : ApiServer) (s : Session E) (reply : Reply)
      (t : Session E)
      → Gave (send_to E cmd kw server s) (some reply) t
      → Asked cmd kw t reply
  unfolding send_to
  send_to-Asked cmd kw server s reply t h =
      let (r, e, g) = bind-Gave (or_raise unknown_cmd (generate_lightos_cmd cmd kw)) _ s _ t h in
      exchange-Asked cmd kw server r _ reply t
        ((or_raise-Gave unknown_cmd (generate_lightos_cmd cmd kw) r s _ (e, refl)).0) g

  send_round-Asked :
      (cmd : String) (kw : Kwargs) (start : ℕ) (u : Done) (s : Session E) (reply : Reply)
      (t : Session E)
      → Gave (send_round E cmd kw start u s) (leave (some reply)) t
      → Asked cmd kw t reply
  unfolding send_round
  send_round-Asked cmd kw start u s reply t h =
      let (idx, _, h1) = bind-Gave (gets (λ s. s.cur_api_server_idx)) _ s _ t h in
      let (server, _, h2) =
        bind-Gave (or_raise index_error (get_elem? (init_api_servers E) idx)) _ _ _ t h1 in
      let (found, e, h3) = bind-Gave (send_to E cmd kw server) _ _ _ t h2 in
      let (e', same) = answered-LastReply E start found _ reply t h3 in
      send_to-Asked cmd kw server _ reply t (cc (e, e'), same)

  pub send_cmd-Asked :
      (cmd : String) (timeout : ℕ) (kw : Kwargs) (s : Session E) (reply : Reply) (t : Session E)
      → Gave (send_cmd E cmd timeout kw s) reply t
      → Asked cmd kw t reply
  unfolding send_cmd
  send_cmd-Asked cmd timeout kw s reply t h =
      let (start, _, h1) = bind-Gave (gets (λ s. s.cur_api_server_idx)) _ s reply t h in
      let (time, _, h2) = bind-Gave (gets (clock E)) _ _ reply t h1 in
      let (last, e, h3) =
        bind-Gave (while_until (clock E) (time + timeout) (send_round E cmd kw start) tt) _ _ reply
          t h2 in
      let (e', same) = or_no_response-Gave E last _ reply t h3 in
      elim (while_until-Gave (send_round E cmd kw start) (clock E) (time + timeout) tt _
        (leave (some reply)) t (cc (e, e'), same)) [
          | inl stopped ↦ cc (stopped.0)
          | inr (u, r, g) ↦ send_round-Asked cmd kw start u r reply t g
        ]
