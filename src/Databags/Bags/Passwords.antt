-- ===== src/Databags/Bags/Passwords.antt =====
-- The passwords of the data bags.
use chef_bcpc.Prelude.{
  ℕ, zero, suc, String, Bool, true, false, List, [], ◌∷◌, ◌≡◌, refl, ℕ_discrete, contains, length,
  all, str_eq, if◌then◌else◌, ap, subst,
}
use Prim.Native.Char.{code}
use chef_bcpc.Json.{Json, null, str, arr, obj, Items, nil, cons, Fields, end, field}
use chef_bcpc.Run.{pure, ◌>>=◌}
use chef_bcpc.Run.Returns.{Gave, bind-Gave, pure-Gave}
use chef_bcpc.Dynamic.{codes}
use chef_bcpc.Databags.{
  Source, Draw, draw, ascii_letters, letters, generate_string, generate_uuid, dict_fields, dict,
  text, password,
}
use chef_bcpc.Databags.Codec.{generate_ceph_key, generate_fernet, symbols, url_symbols}
use chef_bcpc.Databags.Bags.{
  account, with_key, with_password, with_secret, service, pair, ceph, etcd_users, etcd, powerdns,
  proxysql, keystone, nova, mysql, rabbit, ssl, config_rest, config, zones, generate,
}

abbrev pub is_letter : ℕ → Bool
is_letter c = contains ℕ_discrete (codes ascii_letters) c

-- A text of 32 ASCII letters.
pub record IsPassword (v : Json) : Type 0 where
  pub written : String
  pub is_text : v ≡ str written
  pub long : length (codes written) ≡ 32
  pub lettered : all is_letter (codes written) ≡ true

-- The value of an entry called `password` is a password.
abbrev pub Fits : String → Json → Type 0
Fits k v = if str_eq k "password" then IsPassword v else Unit

-- At any depth, the values of entries called `password` are passwords.
unfoldable mutual
  pub Sound : Json → Type 0
  Sound (obj fields) = SoundFields fields
  Sound (arr items) = SoundItems items
  Sound _ = Unit

  pub SoundItems : Items → Type 0
  SoundItems nil = Unit
  SoundItems (cons v items) = Sound v × SoundItems items

  pub SoundFields : Fields → Type 0
  SoundFields end = Unit
  SoundFields (field k v fields) = Fits k v × Sound v × SoundFields fields

-- `secrets.choice` gives one of the letters that it was given.
pub record IsChoosing (S : Source) : Type 0 where
  pub chosen : (w : S.World) → is_letter (code ((S.choice ascii_letters w).0)) ≡ true

module _ (S : Source) where
  -- What a call gives has the property, where it gives something.
  record Yields {A : Type 0} (P : A → Type 0) (m : Draw S A) : Type 0 where
    at : (s : S.World) (a : A) (t : S.World) → Gave (m s) a t → P a

  abbrev Entry : String → Draw S Json → Type 0
  Entry k m = Yields (λ v. Fits k v × Sound v) m

  data AllEntries : List (String × Draw S Json) → Type 0 where
    nothing : AllEntries []
    more :
        (k : String) (m : Draw S Json) (entries : List (String × Draw S Json))
        → Entry k m
        → AllEntries entries
        → AllEntries ((k, m) ∷ entries)

  Entry-other :
      (k : String) (m : Draw S Json) → str_eq k "password" ≡ false → Yields Sound m → Entry k m
  Entry-other k m other y = record { at = λ s a t h. (rw other tt, y.at s a t h) }

  Yields-dict_fields :
      (entries : List (String × Draw S Json))
      → AllEntries entries
      → Yields SoundFields (dict_fields S entries)
  unfolding dict_fields SoundFields
  Yields-dict_fields [] nothing = record {
    at = λ s a t h. subst SoundFields ((pure-Gave end a s t h).0) tt;
  }
  Yields-dict_fields _ (more k m entries e es) = record {
    at = λ s a t h.
        let (v, ev, h1) = bind-Gave m _ s a t h in
        let (fields, ef, h2) = bind-Gave (dict_fields S entries) _ _ a t h1 in
        let (fit, sound) = e.at s v _ (ev, refl) in
        subst SoundFields ((pure-Gave (field k v fields) a _ t h2).0)
          (fit, sound, (Yields-dict_fields entries es).at _ fields _ (ef, refl));
  }

  Yields-dict :
      (entries : List (String × Draw S Json)) → AllEntries entries → Yields Sound (dict S entries)
  unfolding dict Sound
  Yields-dict entries es = record {
    at = λ s a t h.
        let (fields, ef, h1) = bind-Gave (dict_fields S entries) _ s a t h in
        subst Sound ((pure-Gave (obj fields) a _ t h1).0)
          ((Yields-dict_fields entries es).at s fields _ (ef, refl));
  }

  Yields-pure : {A : Type 0} (P : A → Type 0) (a : A) → P a → Yields P (pure a)
  Yields-pure P a p = record { at = λ s b t h. subst P ((pure-Gave a b s t h).0) p }

  Yields-bind :
      {A B : Type 0} (P : B → Type 0) (m : Draw S A) (f : A → Draw S B)
      → ((a : A) → Yields P (f a))
      → Yields P (m >>= f)
  Yields-bind P m f y = record {
    at = λ s b t h. let (a, _, h1) = bind-Gave m f s b t h in (y a).at _ b t h1;
  }

  Yields-then :
      {A B : Type 0} (Q : A → Type 0) (P : B → Type 0) (m : Draw S A) (f : A → Draw S B)
      → Yields Q m
      → ((a : A) → Q a → Yields P (f a))
      → Yields P (m >>= f)
  Yields-then Q P m f q y = record {
    at = λ s b t h.
        let (a, e, h1) = bind-Gave m f s b t h in (y a (q.at s a _ (e, refl))).at _ b t h1;
  }

  Yields-text : (s : String) → Yields Sound (text S s)
  unfolding Sound
  Yields-text s = Yields-pure Sound (str s) tt

  Yields-generate_ceph_key : Yields Sound (generate_ceph_key S)
  unfolding generate_ceph_key Sound
  Yields-generate_ceph_key = Yields-bind Sound _ _ (λ key.
      Yields-bind Sound _ _
        (λ seconds. Yields-bind Sound _ _ (λ digits. Yields-pure Sound (str (symbols digits)) tt)))

  Yields-generate_fernet : Yields Sound (generate_fernet S)
  unfolding generate_fernet Sound
  Yields-generate_fernet = Yields-bind Sound _ _ (λ key. Yields-pure Sound (str (url_symbols _)) tt)

  Yields-uuid : Yields Sound (generate_uuid S >>= λ s. pure (str s))
  unfolding Sound
  Yields-uuid = Yields-bind Sound (generate_uuid S) _ (λ s. Yields-pure Sound (str s) tt)

  Yields-secret : Yields Sound (password S)
  unfolding Sound
  Yields-secret = Yields-bind Sound (generate_string S 32) _ (λ s. Yields-pure Sound (str s) tt)

  module _ (choosing : IsChoosing S) where
    letters-length : (n : ℕ) (w : S.World) → length (codes ((letters S n w).0)) ≡ n
    unfolding letters
    letters-length zero w = refl
    letters-length (suc n) w = ap suc (letters-length n ((S.choice ascii_letters w).1))

    letters-all : (n : ℕ) (w : S.World) → all is_letter (codes ((letters S n w).0)) ≡ true
    unfolding letters
    letters-all zero w = refl
    letters-all (suc n) w = rw (choosing.chosen w) (letters-all n ((S.choice ascii_letters w).1))

    Yields-draw :
        {A : Type 0} (P : A → Type 0) (f : S.World → A × S.World)
        → ((w : S.World) → P ((f w).0))
        → Yields P (draw S f)
    unfolding draw
    Yields-draw P f p = record { at = λ s a t h. subst P (cc (h.0)) (p s) }

    Entry-password : Entry "password" (password S)
    unfolding generate_string Sound
    Entry-password =
        Yields-then (λ s. IsPassword (str s)) _ (draw S (letters S 32)) _
          (Yields-draw (λ s. IsPassword (str s)) (letters S 32)
            (λ w. record {
              written = (letters S 32 w).0;
              is_text = refl;
              long = letters-length 32 w;
              lettered = letters-all 32 w;
            }))
          (λ s p. Yields-pure (λ v. Fits "password" v × Sound v) (str s) (p, tt))

    ruleset entries = (
      nothing, more, Entry-other, Entry-password, Yields-dict, Yields-text, Yields-secret,
      Yields-uuid, Yields-generate_ceph_key, Yields-generate_fernet, refl,
    )

    Yields-account : (name : String) → Yields Sound (account S name)
    Yields-account name = search entries depth 12

    Yields-with_key : (m : Draw S Json) → Yields Sound m → Yields Sound (with_key S m)
    Yields-with_key m y = search entries depth 12

    Yields-with_password : Yields Sound (with_password S)
    Yields-with_password = search entries depth 12

    Yields-with_secret : (m : Draw S Json) → Yields Sound m → Yields Sound (with_secret S m)
    Yields-with_secret m y = search entries depth 12

    Yields-pair : (crt key : String) → Yields Sound (pair S crt key)
    Yields-pair crt key = search entries depth 12

    ruleset entries_2 = (
      nothing, more, Entry-other, Yields-dict, Yields-account, Yields-with_key,
      Yields-with_password, Yields-with_secret, Yields-pair, Yields-text, Yields-secret,
      Yields-uuid, Yields-generate_ceph_key, Yields-generate_fernet, Entry-password, refl,
    )

    Yields-service : (name : String) → Yields Sound (service S name)
    Yields-service name = search entries_2 depth 12

    Yields-ceph : Yields Sound (ceph S)
    unfolding ceph
    Yields-ceph = search entries_2 depth 20

    Yields-etcd_users : Yields Sound (etcd_users S)
    unfolding Sound SoundItems
    Yields-etcd_users = Yields-then Sound Sound _ _ (Yields-account "root") (λ root r.
        Yields-then Sound Sound _ _ (Yields-account "server") (λ server q.
          Yields-then Sound Sound _ _ (Yields-account "client-ro") (λ ro p.
            Yields-then Sound Sound _ _ (Yields-account "client-rw")
              (λ rw' o. Yields-pure Sound _ (r, (q, (p, (o, tt))))))))

    Yields-etcd : Yields Sound (etcd S)
    unfolding etcd
    Yields-etcd = search (entries_2, Yields-etcd_users) depth 20

    Yields-powerdns : Yields Sound (powerdns S)
    unfolding powerdns
    Yields-powerdns = search entries_2 depth 20

    Yields-proxysql : Yields Sound (proxysql S)
    unfolding proxysql
    Yields-proxysql = search entries_2 depth 20

    Yields-keystone : Yields Sound (keystone S)
    unfolding keystone
    Yields-keystone = search entries_2 depth 20

    Yields-nova : Yields Sound (nova S)
    unfolding nova
    Yields-nova = search entries_2 depth 20

    Yields-mysql : Yields Sound (mysql S)
    unfolding mysql
    Yields-mysql = search entries_2 depth 20

    Yields-rabbit : Yields Sound (rabbit S)
    unfolding rabbit
    Yields-rabbit = search entries_2 depth 20

    Yields-null : Yields Sound (pure null)
    unfolding Sound
    Yields-null = Yields-pure Sound null tt

    Yields-ssl : Yields Sound (ssl S)
    unfolding ssl
    Yields-ssl = search (entries_2, Yields-null) depth 20

    ruleset bags = (
      entries_2, Yields-service, Yields-ceph, Yields-etcd, Yields-powerdns, Yields-proxysql,
      Yields-keystone, Yields-nova, Yields-mysql, Yields-rabbit, Yields-ssl,
    )

    AllEntries-config_rest : AllEntries (config_rest S)
    AllEntries-config_rest = search bags depth 40

    Yields-config : Yields Sound (config S)
    unfolding config
    Yields-config = search (bags, AllEntries-config_rest) depth 20

    Yields-zones : Yields Sound (zones S)
    unfolding zones
    Yields-zones = search bags depth 20

    -- Where `secrets.choice` gives one of the letters it was given, each value of an entry
    -- `password`, anywhere in the data bags that `generate` returns, is a text of 32 ASCII letters.
    pub generate-Sound : (w v : S.World) (bags : Json) → Gave (generate S w) bags v → Sound bags
    unfolding generate Sound SoundItems SoundFields
    generate-Sound w v bags h =
        (Yields-then Sound Sound (config S) _ Yields-config (λ c p.
            Yields-then Sound Sound (zones S) _ Yields-zones
              (λ z q. Yields-pure Sound _ (tt, (p, (q, tt)), tt)))).at
          w bags v h
