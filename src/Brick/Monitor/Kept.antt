-- ===== src/Brick/Monitor/Kept.antt =====
-- The database is the map that the last message on each volume makes.
use chef_bcpc.Prelude.{
  String, String-discrete, Bool, true, false, Option, none, some, List, [], ◌∷◌, ite, is_some,
  arith, ◌≡◌, ◌≢◌, refl, sym, ◌∙◌, ap, subst, inl, inr, if◌then◌else◌,
}
use chef_bcpc.Json.{Json, print}
use chef_bcpc.Run.{Done, pure, gets, modify, ok, ◌>>=◌}
use chef_bcpc.Run.Returns.{Gave, bind-Gave, pure-Gave, if-Gave}
use chef_bcpc.Dict.{
  Dict, find, put, drop, IsDict, find-put_same, find-put_other, find-drop_same, find-drop_other,
  IsDict-put, IsDict-drop,
}
use chef_bcpc.Dynamic.{item}
use chef_bcpc.Dynamic.Returns.{path, item-path, item-Gave}
use chef_bcpc.Brick.Volumes.{Message, add, delete}
use chef_bcpc.Brick.Monitor.{uuid_of, process, monitor_message_queue}

-- The key of a connection, if it has one.
abbrev pub key_of : Option Json → Option String
key_of none = none
key_of (some uuid) = some (print uuid)

abbrev pub key : Json → Option String
key connection = key_of (path ("uuid" ∷ []) connection)

abbrev pub connection_of : Message → Json
connection_of (add connection) = connection
connection_of (delete connection) = connection

abbrev pub is_about : String → Option String → Bool
is_about u none = false
is_about u (some k) = ite (String-discrete k u) true false

-- What a message says of a volume, in place of what stood: a volume is connected with these
-- properties, or is not.
abbrev pub told : String → Message → Option Json → Option Json
told u (add connection) old = if is_about u (key connection) then some connection else old
told u (delete connection) old = if is_about u (key connection) then none else old

-- The messages one after the other.
abbrev pub told_all : String → List Message → Option Json → Option Json
told_all u [] old = old
told_all u (message ∷ messages) old = told_all u messages (told u message old)

uuid_of-Gave :
    {S : Type 0} (connection : Json) (u : String) (s t : S)
    → Gave (uuid_of connection s) u t
    → (key connection ≡ some u) × (s ≡ t)
unfolding uuid_of
uuid_of-Gave connection u s t h =
    let (uuid, e, h1) = bind-Gave (item "uuid" connection) _ s u t h in
    let (_, _, _, same) = item-Gave "uuid" connection uuid s _ (e, refl) in
    let (k, same') = pure-Gave (print uuid) u _ t h1 in
    (ap key_of (item-path "uuid" connection uuid s _ (e, refl)) ∙ ap some k, same ∙ same')

is_about_same : (u : String) (o : Option String) → o ≡ some u → is_about u o ≡ true
is_about_same u o e = ground (arith, e)

is_about_other : (u k : String) (o : Option String) → o ≡ some k → k ≢ u → is_about u o ≡ false
is_about_other u k o e ne = ground (arith, e)

told_same :
    (u : String) (m : Message) (old : Option Json)
    → is_about u (key (connection_of m)) ≡ false
    → told u m old ≡ old
told_same u (add c) old e = ground (arith, e)
told_same u (delete c) old e = ground (arith, e)

-- What one message makes of the database.
record Told (m : Message) (db db' : Dict Json) : Type 0 where
  stays : IsDict db'
  entries : (u : String) → find u db' ≡ told u m (find u db)

-- A change of one entry.
change :
    (m : Message) (k : String) (db db' : Dict Json)
    → key (connection_of m) ≡ some k
    → IsDict db'
    → find k db' ≡ told k m (find k db)
    → ((u : String) → k ≢ u → find u db' ≡ find u db)
    → Told m db db'
change m k db db' e d same other = record {
  stays = d;
  entries = λ u. elim (String-discrete k u) [
    | yes p ↦ subst (λ x. find x db' ≡ told x m (find x db)) p same
    | no ne ↦ other u ne ∙ sym (told_same u m (find u db) (is_about_other u k _ e ne))
  ];
}

pub told_add :
    (k : String) (c : Json) (old : Option Json) → key c ≡ some k → told k (add c) old ≡ some c
told_add k c old e = rw (is_about_same k (key c) e) refl

told_delete :
    (k : String) (c : Json) (old : Option Json) → key c ≡ some k → told k (delete c) old ≡ none
told_delete k c old e = rw (is_about_same k (key c) e) refl

put-Told :
    (k : String) (c : Json) (db db' : Dict Json)
    → key c ≡ some k
    → IsDict db
    → put k c db ≡ db'
    → Told (add c) db db'
put-Told k c db db' e d made = subst (Told (add c) db) made (
    change (add c) k db (put k c db) e (IsDict-put k c db d)
      (find-put_same k c db ∙ sym (told_add k c (find k db) e))
      (λ u ne. find-put_other u k c db ne))

drop-Told :
    (k : String) (c : Json) (db db' : Dict Json)
    → key c ≡ some k
    → IsDict db
    → drop k db ≡ db'
    → Told (delete c) db db'
drop-Told k c db db' e d made = subst (Told (delete c) db) made (
    change (delete c) k db (drop k db) e (IsDict-drop k db d)
      (find-drop_same k db d ∙ sym (told_delete k c (find k db) e))
      (λ u ne. find-drop_other u k db ne))

unknown : (o : Option Json) → is_some o ≡ false → o ≡ none
unknown o e = ground (arith, e)

-- A message on a volume that the database does not have.
unknown-Told :
    (k : String) (c : Json) (db db' : Dict Json)
    → key c ≡ some k
    → IsDict db
    → is_some (find k db) ≡ false
    → db ≡ db'
    → Told (delete c) db db'
unknown-Told k c db db' e d absent made = subst (Told (delete c) db) made (
    change (delete c) k db db e d (unknown (find k db) absent ∙ sym (told_delete k c (find k db) e))
      (λ u ne. refl))

known_value : (a b : Option Json) → ok a ≡ ok b → a ≡ b
known_value a b e = cc e

process-Told :
    (m : Message) (db db' : Dict Json) (u : Done)
    → IsDict db
    → Gave (process m db) u db'
    → Told m db db'
unfolding process gets modify pure
process-Told (add c) db db' u d h =
    let (k, e, h1) = bind-Gave (uuid_of c) _ db u db' h in
    let (is_key, same) = uuid_of-Gave c k db _ (e, refl) in
    put-Told k c db db' is_key d (ap (put k c) same ∙ h1.1)
process-Told (delete c) db db' u d h =
    let (k, e, h1) = bind-Gave (uuid_of c) _ db u db' h in
    let (is_key, same) = uuid_of-Gave c k db _ (e, refl) in
    deleted c k db ((uuid_of c db).1) db' u is_key d same h1
  where
    deleted :
        (c : Json) (k : String) (db db1 db' : Dict Json) (u : Done)
        → key c ≡ some k
        → IsDict db
        → db ≡ db1
        → Gave
            ((gets (find k) >>= λ known. if is_some known then modify (drop k) else pure tt) db1)
            u
            db'
        → Told (delete c) db db'
    deleted c k db db1 db' u is_key d same h =
        let (known, e, h1) = bind-Gave (gets (find k)) _ db1 u db' h in
        let found = ap (find k) same ∙ known_value (find k db1) known e in
        elim (if-Gave (is_some known) (modify (drop k)) (pure tt) db1 u db' h1) [
          | inl (_, g) ↦ drop-Told k c db db' is_key d (ap (drop k) same ∙ g.1)
          | inr (absent, g) ↦
              unknown-Told k c db db' is_key d (ap is_some found ∙ absent) (same ∙ g.1)
        ]

-- Where monitor_message_queue returns, the database, a dictionary in which no key stands twice, is one
-- again, and what it has under a key is what the messages, one after the other, say of that volume:
-- an `add` its properties, a `delete` that it is gone, a message on another volume nothing.
pub monitor_message_queue-Told :
    (messages : List Message) (db db' : Dict Json) (u : Done)
    → IsDict db
    → Gave (monitor_message_queue messages db) u db'
    → IsDict db' × ((k : String) → find k db' ≡ told_all k messages (find k db))
unfolding monitor_message_queue
monitor_message_queue-Told [] db db' u d h =
    let same = (pure-Gave tt u db db' h).1 in (subst IsDict same d, λ k. ap (find k) (sym same))
monitor_message_queue-Told (m ∷ messages) db db' u d h =
    let (v, e, h1) = bind-Gave (process m) _ db u db' h in
    let first = process-Told m db ((process m db).1) v d (e, refl) in
    let (d', rest) = monitor_message_queue-Told messages ((process m db).1) db' u first.stays h1 in
    (d', λ k. rest k ∙ ap (told_all k messages) (first.entries k))
