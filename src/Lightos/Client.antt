-- ===== src/Lightos/Client.antt =====
-- `LightOSConnection.send_cmd` and `__send_cmd`: a command goes to the current API server, and on to
-- the next one when a server does not answer.
pub mod Pace
pub mod Servers
pub mod Answers
pub mod Asked
pub mod Payload
use chef_bcpc.Prelude.{
  ℕ, ◌+◌, ◌%◌, ◌==◌, ◌&&◌, ltb, String, ◌<>◌, Bool, true, false, Option, none, some, List, [], ◌∷◌,
  ◌++◌, length, get_elem?, if◌then◌else◌, str_eq,
}
use chef_bcpc.Json.{truthy, print}
use chef_bcpc.Run.{
  ok, Done, pure, raise, gets, or_raise, modify, ◌>>=◌, ◌>>◌, index_error, unknown_cmd,
  volume_driver,
}
use chef_bcpc.Run.Loop.{Step, again, leave, while_until}
use chef_bcpc.Lightos.Command.{
  Method, get, post, put, delete, Request, Kwargs, generate_lightos_cmd,
}
use chef_bcpc.Lightos.Session.{Env, Action, Reply, Wire, ApiServer, clock, init_api_servers}

unfoldable pub has_content : Method → Bool
has_content post = true
has_content put = true
has_content get = false
has_content delete = false

-- The header for `lightos_jwt`, when the option is set.
unfoldable pub bearer_of : Option String → List (String × String)
bearer_of none = []
bearer_of (some jwt) = if str_eq jwt "" then [] else ("Authorization", "Bearer " <> jwt) ∷ []

module _ (E : Env) where
  -- The headers that `__send_cmd` sets.
  headers : Method → Kwargs → List (String × String)
  unfolding has_content bearer_of
  headers method kw =
      ("Accept", "application/json")
      ∷ ("Expect", "")
      ∷ ((if has_content method then ("Content-Type", "application/json") ∷ [] else [])
          ++ ((if truthy kw.etag then ("If-Match", print kw.etag) ∷ [] else [])
              ++ bearer_of E.config.lightos_jwt))

  -- The request of a command to a server.
  unfoldable pub prepare : ApiServer → Kwargs → Request → Wire
  unfolding headers
  prepare server kw r = record {
    method = r.method;
    api_url = "https://" <> server.api_address <> ":" <> server.api_port <> r.url;
    payload = if truthy r.body then some r.body else none;
    headers = headers r.method kw;
  }

  -- `session.send`, noted down.
  unfoldable pub exchange : ApiServer → Wire → Action E (Option Reply)
  exchange server wire s =
      let (reply, w) = E.send wire s.world in
      (
        ok reply,
        record s {
          world = w;
          exchanges = record { server = server; wire = wire; reply = reply } ∷ s.exchanges;
        },
      )

  -- `__send_cmd`: `none` is `(False, None, None)`.
  unfoldable pub send_to : String → Kwargs → ApiServer → Action E (Option Reply)
  send_to cmd kw server = do
    r ← or_raise unknown_cmd (generate_lightos_cmd cmd kw)
    exchange server (prepare server kw r)

  -- On to the next server; `none` is the `break` once all of several have been tried.
  unfoldable pub next_server : ℕ → Action E (Step Done (Option Reply))
  next_server start = do
    modify (λ s. record s {
      cur_api_server_idx = (s.cur_api_server_idx + 1) % length (init_api_servers E);
    })
    idx ← gets (λ s. s.cur_api_server_idx)
    pure (if idx == start && ltb 1 (length (init_api_servers E)) then leave none else again tt)

  abbrev pub answered : ℕ → Option Reply → Action E (Step Done (Option Reply))
  answered start (some reply) = pure (leave (some reply))
  answered start none = next_server start

  unfoldable pub send_round : String → Kwargs → ℕ → Done → Action E (Step Done (Option Reply))
  send_round cmd kw start _ = do
    idx ← gets (λ s. s.cur_api_server_idx)
    server ← or_raise index_error (get_elem? (init_api_servers E) idx)
    reply ← send_to cmd kw server
    answered start reply

  abbrev pub or_no_response : Step Done (Option Reply) → Action E Reply
  or_no_response (leave (some reply)) = pure reply
  or_no_response (leave none) = raise volume_driver
  or_no_response (again _) = raise volume_driver

  -- `send_cmd`, its timeout in ticks
  unfoldable pub send_cmd : String → ℕ → Kwargs → Action E Reply
  send_cmd cmd timeout kw = do
    start ← gets (λ s. s.cur_api_server_idx)
    time ← gets (clock E)
    last ← while_until (clock E) (time + timeout) (send_round cmd kw start) tt
    or_no_response last
