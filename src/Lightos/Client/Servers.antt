-- ===== src/Lightos/Client/Servers.antt =====
-- Where the client's requests go and what they carry: `send_cmd` asks configured servers only, over
-- HTTPS, with the token of the configuration, and its cursor stays on a server of the list.
use chef_bcpc.Prelude.{
  ℕ, ◌<◌, String, ◌<>◌, Option, none, some, List, [], ◌∷◌, ◌++◌, length, get_elem?, get_elem?-lt,
  arith, ◌≡◌, ◌≢◌, ◌⊎◌, inl, inr, refl, ap, ◌∙◌, Bool, true, false, String-discrete, str_eq_other,
  if◌then◌else◌,
}
use mathlib.Core.List.{append_assoc}
use chef_bcpc.Run.{
  Outcome, ok, raised, diverged, Done, pure, gets, modify, or_raise, ◌>>=◌, volume_driver,
}
use chef_bcpc.Run.Loop.{Step, again, leave}
use chef_bcpc.Run.Keeps.{
  Relation, Kept, Keeps, Keeps-pure, Keeps-raise, Keeps-gets, Keeps-or_raise, Keeps-bind,
  Keeps-while_until,
}
use chef_bcpc.Json
use chef_bcpc.Dict.{Dict, find}
use chef_bcpc.Lightos.Command.{Kwargs, Request}
use chef_bcpc.Lightos.Session.{Env, Session, Action, Reply, ApiServer, Exchange, init_api_servers}
use chef_bcpc.Lightos.Client.{
  bearer_of, headers, prepare, exchange, send_to, next_server, answered, send_round, or_no_response,
  send_cmd, has_content,
}

-- What a session's operations may change of the client: its cursor and its record of requests.
pub record View : Type 0 where
  pub cursor : ℕ
  pub exchanges : List Exchange

abbrev pub view : (E : Env) → Session E → View
view E s = record { cursor = s.cur_api_server_idx; exchanges = s.exchanges }

abbrev pub All {ℓ κ} : {A : Type ℓ} → (A → Type κ) → List A → Type κ
All P [] = Unit
All P (x ∷ xs) = P x × All P xs

-- The headers authorize the request with the token, if one is set, and with nothing else.
pub record IsAuthorized (lightos_jwt : Option String) (headers : Dict String) : Type 0 where
  pub with_token :
      (jwt : String)
      → lightos_jwt ≡ some jwt
      → jwt ≢ ""
      → find "Authorization" headers ≡ some ("Bearer " <> jwt)
  pub without_token :
      (lightos_jwt ≡ none) ⊎ (lightos_jwt ≡ some "") → find "Authorization" headers ≡ none

-- The authorization is the last header, if any; the others are named here.
find-headers :
    (content etag : Bool) (value : String) (rest : Dict String)
    → find "Authorization" (
        ("Accept", "application/json")
        ∷ ("Expect", "")
        ∷ ((if content then ("Content-Type", "application/json") ∷ [] else [])
            ++ ((if etag then ("If-Match", value) ∷ [] else []) ++ rest)))
      ≡ find "Authorization" rest
unfolding String-discrete
find-headers true true value rest = refl
find-headers true false value rest = refl
find-headers false true value rest = refl
find-headers false false value rest = refl

find-bearer :
    (jwt : String)
    → jwt ≢ ""
    → find "Authorization" (bearer_of (some jwt)) ≡ some ("Bearer " <> jwt)
unfolding bearer_of String-discrete
find-bearer jwt set = rw (str_eq_other jwt "" set) refl

find-no_bearer :
    (lightos_jwt : Option String)
    → (lightos_jwt ≡ none) ⊎ (lightos_jwt ≡ some "")
    → find "Authorization" (bearer_of lightos_jwt) ≡ none
unfolding bearer_of String-discrete
find-no_bearer lightos_jwt (inl e) = rw e refl
find-no_bearer lightos_jwt (inr e) = rw e refl

module _ (E : Env) where
  abbrev pub server_count : ℕ
  server_count = length (init_api_servers E)

  -- A request to a configured server, over HTTPS whichever the port is, with the configured token.
  pub record IsOwn (x : Exchange) : Type 0 where
    pub position : ℕ
    pub configured : get_elem? (init_api_servers E) position ≡ some x.server
    pub path : String
    pub secure :
        x.wire.api_url ≡ "https://" <> x.server.api_address <> ":" <> x.server.api_port <> path
    pub token : IsAuthorized E.config.lightos_jwt x.wire.headers

  abbrev pub Grows : List Exchange → List Exchange → Type 0
  Grows xs ys = (new : List Exchange) × (ys ≡ new ++ xs) × All IsOwn new

  All-append : (xs ys : List Exchange) → All IsOwn xs → All IsOwn ys → All IsOwn (xs ++ ys)
  All-append [] ys h k = k
  All-append (x ∷ xs) ys h k = (h.0, All-append xs ys h.1 k)

  pub Grows-trans : {xs ys zs : List Exchange} → Grows xs ys → Grows ys zs → Grows xs zs
  Grows-trans {xs} (new, e, own) (new', e', own') =
      (new' ++ new, rw (e', e) (rw append_assoc), All-append new' new own' own)

  abbrev pub client_relation : Relation View
  client_relation = record {
    rel =
        λ u v. (u.cursor < server_count → v.cursor < server_count) × Grows u.exchanges v.exchanges;
    rel_refl = λ v. (λ h. h, ([], refl, tt));
    rel_trans = λ p q. (λ h. q.0 (p.0 h), Grows-trans p.1 q.1);
    good = λ v. v.cursor < server_count;
    stays_good = λ p g. p.0 g;
  }

  abbrev Kind : {A : Type 0} → Action E A → Type 0
  Kind m = Keeps (view E) client_relation m

  headers-token :
      (kw : Kwargs) (r : Request) → IsAuthorized E.config.lightos_jwt (headers E r.method kw)
  unfolding headers
  headers-token kw r = record {
    with_token = λ jwt e set.
        find-headers (has_content r.method) (Json.truthy kw.etag) (Json.print kw.etag)
          (bearer_of E.config.lightos_jwt)
        ∙ ap (λ o. find "Authorization" (bearer_of o)) e
        ∙ find-bearer jwt set;
    without_token = λ unset.
        find-headers (has_content r.method) (Json.truthy kw.etag) (Json.print kw.etag)
          (bearer_of E.config.lightos_jwt)
        ∙ find-no_bearer E.config.lightos_jwt unset;
  }

  exchange-Keeps :
      (kw : Kwargs) (r : Request) (server : ApiServer) (i : ℕ)
      → get_elem? (init_api_servers E) i ≡ some server
      → Kind (exchange E server (prepare E server kw r))
  unfolding exchange prepare
  exchange-Keeps kw r server i found = record {
    at = λ s g. (
      λ h. h,
      (
        _ ∷ [],
        refl,
        (
          record {
            position = i;
            configured = found;
            path = r.url;
            secure = refl;
            token = headers-token kw r;
          },
          tt,
        ),
      ),
    );
  }

  next_server-Keeps : (start : ℕ) → Kind (next_server E start)
  unfolding next_server modify gets pure ◌>>=◌
  next_server-Keeps start = record { at = λ s g. (λ h. omega arith, ([], refl, tt)) }

  answered-Keeps : (start : ℕ) (reply : Option Reply) → Kind (answered E start reply)
  answered-Keeps start none = next_server-Keeps start
  answered-Keeps start (some r) = Keeps-pure (view E) client_relation (leave (some r))

  send_to-Keeps :
      (cmd : String) (kw : Kwargs) (server : ApiServer) (i : ℕ)
      → get_elem? (init_api_servers E) i ≡ some server
      → Kind (send_to E cmd kw server)
  unfolding send_to
  send_to-Keeps cmd kw server i found =
      Keeps-bind (view E) client_relation _ _ (Keeps-or_raise (view E) client_relation _ _ refl)
        (λ r. exchange-Keeps kw r server i found)

  asked-Keeps :
      (cmd : String) (kw : Kwargs) (start : ℕ) (server : ApiServer) (i : ℕ)
      → get_elem? (init_api_servers E) i ≡ some server
      → Kind (send_to E cmd kw server >>= answered E start)
  asked-Keeps cmd kw start server i found =
      Keeps-bind (view E) client_relation _ _ (send_to-Keeps cmd kw server i found)
        (answered-Keeps start)

  send_round-Keeps :
      (cmd : String) (kw : Kwargs) (start : ℕ) (u : Done) → Kind (send_round E cmd kw start u)
  unfolding send_round gets ◌>>=◌ or_raise
  send_round-Keeps cmd kw start u = record {
    at = λ s g.
        let (server, found) = get_elem?-lt (init_api_servers E) s.cur_api_server_idx g in
        rw (found, or_raise) ((asked-Keeps cmd kw start server s.cur_api_server_idx found).at s g);
  }

  or_no_response-Keeps : (last : Step Done (Option Reply)) → Kind (or_no_response E last)
  or_no_response-Keeps (leave (some reply)) = Keeps-pure (view E) client_relation reply
  or_no_response-Keeps (leave none) = Keeps-raise (view E) client_relation volume_driver refl
  or_no_response-Keeps (again u) = Keeps-raise (view E) client_relation volume_driver refl

  pub send_cmd-Keeps : (cmd : String) (timeout : ℕ) (kw : Kwargs) → Kind (send_cmd E cmd timeout kw)
  unfolding send_cmd
  send_cmd-Keeps cmd timeout kw =
      search (Keeps-bind, Keeps-gets, Keeps-while_until, send_round-Keeps, or_no_response-Keeps)

  kept_rel :
      {A : Type 0} (s : Session E) (r : Outcome A × Session E)
      → Kept (view E) client_relation (view E s) r
      → client_relation.rel (view E s) (view E (r.1))
  kept_rel s (ok a, t) k = k
  kept_rel s (raised e, t) k = k.0
  kept_rel s (diverged, t) k = k

  -- What an action did to the cursor and the record of requests.
  pub grown :
      {A : Type 0} (m : Action E A) (s : Session E)
      → Keeps (view E) client_relation m
      → s.cur_api_server_idx < server_count
      → client_relation.rel (view E s) (view E ((m s).1))
  grown m s k g = kept_rel s (m s) (k.at s g)
