-- ===== src/Lightos/Frame.antt =====
-- What every operation does to the server cursor and the record of requests, out of what `send_cmd`
-- does: nothing else touches them. A `Frame` is a relation that `send_cmd` keeps to; the modules
-- below carry it over to the driver's methods.
pub mod Lookup
pub mod Volume
pub mod Snapshot
pub mod Access
pub mod Attach
pub mod Setup
pub mod Driver
use chef_bcpc.Prelude.{ℕ, String, Bool, true, false, ◌≡◌, refl}
use chef_bcpc.Json.{Json, null, bool, num, str, arr, obj}
use chef_bcpc.Run.{Error}
use chef_bcpc.Run.Keeps.{
  Relation, Keeps, Keeps-pure, Keeps-raise, Keeps-or_raise, Keeps-gets, Keeps-bind, Keeps-if,
  is_index_error,
}
use chef_bcpc.Dynamic.{item, get, as_list, iterate, is_in, assert, has_key}
use chef_bcpc.Lightos.Command.{Kwargs}
use chef_bcpc.Lightos.Session.{Env, Action}
use chef_bcpc.Lightos.Client.{send_cmd}
use chef_bcpc.Lightos.Client.Servers.{View, view, client_relation, send_cmd-Keeps}

pub record Frame (E : Env) : Type 1 where
  pub relation : Relation View
  pub sends :
      (cmd : String) (timeout : ℕ) (kw : Kwargs)
      → Keeps (view E) relation (send_cmd E cmd timeout kw)

abbrev pub client_frame : (E : Env) → Frame E
client_frame E = record { relation = client_relation E; sends = send_cmd-Keeps E }

module _ (E : Env) (F : Frame E) where
  abbrev pub Framed : {A : Type 0} → Action E A → Type 0
  Framed m = Keeps (view E) F.relation m

  pub Framed-item : (k : String) (v : Json) → Framed (item k v)
  unfolding item
  Framed-item k (obj fs) = Keeps-or_raise (view E) F.relation _ _ refl
  Framed-item k _ = Keeps-raise (view E) F.relation _ refl

  pub Framed-get : (k : String) (d v : Json) → Framed (get k d v)
  unfolding get
  Framed-get k d (obj fs) = Keeps-pure (view E) F.relation _
  Framed-get k d _ = Keeps-raise (view E) F.relation _ refl

  pub Framed-as_list : (e : Error) (v : Json) → is_index_error e ≡ false → Framed (as_list e v)
  unfolding as_list
  Framed-as_list e (arr xs) h = Keeps-pure (view E) F.relation _
  Framed-as_list e null h = Keeps-raise (view E) F.relation e h
  Framed-as_list e (bool b) h = Keeps-raise (view E) F.relation e h
  Framed-as_list e (num n) h = Keeps-raise (view E) F.relation e h
  Framed-as_list e (str s) h = Keeps-raise (view E) F.relation _ refl
  Framed-as_list e (obj fs) h = Keeps-raise (view E) F.relation _ refl

  pub Framed-iterate : (v : Json) → Framed (iterate v)
  unfolding iterate
  Framed-iterate v = Keeps-or_raise (view E) F.relation _ _ refl

  pub Framed-is_in : (v container : Json) → Framed (is_in v container)
  unfolding is_in
  Framed-is_in v container = Keeps-or_raise (view E) F.relation _ _ refl

  pub Framed-assert : (b : Bool) → Framed (assert b)
  unfolding assert
  Framed-assert true = Keeps-pure (view E) F.relation tt
  Framed-assert false = Keeps-raise (view E) F.relation _ refl

  pub Framed-has_key : (k : String) (v : Json) → Framed (has_key k v)
  unfolding has_key
  Framed-has_key k (obj fs) = Keeps-pure (view E) F.relation _
  Framed-has_key k (arr xs) = Keeps-pure (view E) F.relation _
  Framed-has_key k (str s) = Keeps-pure (view E) F.relation _
  Framed-has_key k _ = Keeps-raise (view E) F.relation _ refl

pub ruleset keeps_rules = (
  Keeps-bind, Keeps-if, Keeps-pure, Keeps-raise, Keeps-gets, Keeps-or_raise, Framed-item,
  Framed-get, Framed-as_list, Framed-iterate, Framed-is_in, Framed-assert,
)
