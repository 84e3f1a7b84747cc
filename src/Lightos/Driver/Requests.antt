-- ===== src/Lightos/Driver/Requests.antt =====
-- What every operation of the driver does on the network.
use chef_bcpc.Prelude.{◌<◌, List, ◌++◌, ◌≡◌, ◌≢◌, arith, false}
use chef_bcpc.Run.{Error, Outcome, ok, raised, diverged, Done, index_error}
use chef_bcpc.Run.Keeps.{Kept, is_index_error}
use chef_bcpc.Lightos.Session.{Env, Session, Exchange}
use chef_bcpc.Lightos.Client.Servers.{view, All, IsOwn, server_count, client_relation}
use chef_bcpc.Lightos.Frame.{client_frame}
use chef_bcpc.Lightos.Frame.Driver.{perform-Framed}
use chef_bcpc.Lightos.Driver.{Operation, perform}

-- How an operation that began at `s` has used the client.
pub record UsesServers (E : Env) (s : Session E) (r : Outcome Done × Session E) : Type 0 where
  pub no_index_error : r.0 ≢ raised index_error
  pub cursor_in_range : (r.1).cur_api_server_idx < server_count E
  pub new : List Exchange
  pub recorded : (r.1).exchanges ≡ new ++ s.exchanges
  pub own : All (IsOwn E) new

module _ (E : Env) where
  not_index :
      (x : Error)
      → is_index_error x ≡ false
      → ◌≢◌ {A = Outcome Done} (raised x) (raised index_error)
  not_index index_error h = cc
  not_index _ h = ground arith

  Kept-cases :
      (s : Session E) (r : Outcome Done × Session E)
      → s.cur_api_server_idx < server_count E
      → Kept (view E) (client_relation E) (view E s) r
      → UsesServers E s r
  Kept-cases s (ok u, t) g (cursor, (new, e, own)) = record {
    no_index_error = ground arith;
    cursor_in_range = cursor g;
    new = new;
    recorded = e;
    own = own;
  }
  Kept-cases s (raised x, t) g ((cursor, (new, e, own)), calm) = record {
    no_index_error = not_index x calm;
    cursor_in_range = cursor g;
    new = new;
    recorded = e;
    own = own;
  }
  Kept-cases s (diverged, t) g (cursor, (new, e, own)) = record {
    no_index_error = ground arith;
    cursor_in_range = cursor g;
    new = new;
    recorded = e;
    own = own;
  }

  -- Started with its cursor on a server of the list, an operation of the driver, whether it returns
  -- or raises, raises no IndexError and leaves the cursor on a server of the list. The requests
  -- recorded before stay, and each new one went to a configured server over HTTPS, whichever the port
  -- is, and has the header Authorization with the token if one is configured, and no such header
  -- otherwise.
  pub perform_requests :
      (op : Operation) (s : Session E)
      → s.cur_api_server_idx < server_count E
      → UsesServers E s (perform E op s)
  perform_requests op s g =
      Kept-cases s (perform E op s) g ((perform-Framed E (client_frame E) op).at s g)
