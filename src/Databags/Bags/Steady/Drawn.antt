-- ===== src/Databags/Bags/Steady/Drawn.antt =====
-- Making the data bags draws only, and fails from 2^31 seconds on.
use chef_bcpc.Prelude.{ℕ, zero, suc, ◌≤◌, ◌∷◌, [], List, String, Option, none, ◌≡◌, refl, arith}
use chef_bcpc.Json.{Json, str}
use chef_bcpc.Run.{pure, gets, or_raise, ◌>>=◌}
use chef_bcpc.Databags.{
  Source, Draw, draw, letters, generate_string, generate_uuid, dict_fields, dict, password,
}
use chef_bcpc.Databags.Codec.{ceph_digits, pack_header, generate_ceph_key, generate_fernet}
use chef_bcpc.Databags.Bags.{
  account, with_key, with_password, with_secret, service, pair, ceph, etcd_users, etcd, powerdns,
  proxysql, keystone, nova, mysql, rabbit, ssl, config_rest, config, zones, generate,
}
use chef_bcpc.Databags.Bags.Steady.{
  Same, IsFiling, last_second, Same-refl, Same-trans, Steady, Late, Steady-bind, Steady-pure,
  Steady-gets, Steady-or_raise, Steady-draw, Late-first, Late-next,
}

ceph_digits_late :
    (seconds : ℕ) (key : List ℕ) → last_second ≤ seconds → ceph_digits seconds key ≡ none
unfolding ceph_digits pack_header
ceph_digits_late seconds key t = ground arith

module _ (S : Source) (read : String → S.World → Option Json) where
  abbrev Calm : {A : Type 0} → Draw S A → Type 0
  Calm m = Steady S read m

  data AllCalm : List (String × Draw S Json) → Type 0 where
    nothing : AllCalm []
    more :
        (k : String) (m : Draw S Json) (entries : List (String × Draw S Json))
        → Calm m
        → AllCalm entries
        → AllCalm ((k, m) ∷ entries)

  Steady-dict_fields :
      (entries : List (String × Draw S Json)) → AllCalm entries → Calm (dict_fields S entries)
  unfolding dict_fields
  Steady-dict_fields [] nothing = Steady-pure S read _
  Steady-dict_fields _ (more k m entries e es) =
      Steady-bind S read _ _ e (λ v.
        Steady-bind S read _ _ (Steady-dict_fields entries es) (λ fields. Steady-pure S read _))

  Steady-dict : (entries : List (String × Draw S Json)) → AllCalm entries → Calm (dict S entries)
  unfolding dict
  Steady-dict entries es =
      Steady-bind S read _ _ (Steady-dict_fields entries es) (λ fields. Steady-pure S read _)

  module _ (filing : IsFiling S read) where
    Same-letters : (n : ℕ) (w : S.World) → Same S read w ((letters S n w).1)
    unfolding letters
    Same-letters zero w = Same-refl S read w
    Same-letters (suc n) w = Same-trans S read w _ _ (filing.same_choice _ w) (Same-letters n _)

    Steady-generate_ceph_key : Calm (generate_ceph_key S)
    unfolding generate_ceph_key
    Steady-generate_ceph_key =
        Steady-bind S read _ _ (Steady-draw S read _ (filing.same_urandom 16)) (λ key.
          Steady-bind S read _ _ (Steady-gets S read _) (λ seconds.
            Steady-bind S read _ _ (Steady-or_raise S read _) (λ digits. Steady-pure S read _)))

    Steady-generate_fernet : Calm (generate_fernet S)
    unfolding generate_fernet
    Steady-generate_fernet =
        Steady-bind S read _ _ (Steady-draw S read _ (filing.same_urandom 32))
          (λ key. Steady-pure S read _)

    Steady-uuid : Calm (generate_uuid S >>= λ s. pure (str s))
    unfolding generate_uuid
    Steady-uuid =
        Steady-bind S read _ _ (Steady-draw S read _ filing.same_uuid4) (λ s. Steady-pure S read _)

    Steady-password : Calm (password S)
    unfolding generate_string
    Steady-password =
        Steady-bind S read _ _ (Steady-draw S read _ (Same-letters 32)) (λ s. Steady-pure S read _)

    ruleset calm = (
      nothing, more, Steady-dict, Steady-pure, Steady-password, Steady-uuid,
      Steady-generate_ceph_key, Steady-generate_fernet,
    )

    Steady-account : (name : String) → Calm (account S name)
    Steady-account name = search calm depth 12

    Steady-with_key : (m : Draw S Json) → Calm m → Calm (with_key S m)
    Steady-with_key m y = search calm depth 12

    Steady-with_password : Calm (with_password S)
    Steady-with_password = search calm depth 12

    Steady-with_secret : (m : Draw S Json) → Calm m → Calm (with_secret S m)
    Steady-with_secret m y = search calm depth 12

    ruleset calmer =
        (calm, Steady-account, Steady-with_key, Steady-with_password, Steady-with_secret)

    Steady-service : (name : String) → Calm (service S name)
    Steady-service name = search calmer depth 12

    Steady-pair : (crt key : String) → Calm (pair S crt key)
    Steady-pair crt key = search calm depth 12

    Steady-ceph : Calm (ceph S)
    unfolding ceph
    Steady-ceph = search calmer depth 20

    Steady-etcd_users : Calm (etcd_users S)
    Steady-etcd_users = search (Steady-bind, Steady-pure, Steady-account) depth 12

    Steady-etcd : Calm (etcd S)
    unfolding etcd
    Steady-etcd = search (calmer, Steady-pair, Steady-etcd_users) depth 20

    Steady-powerdns : Calm (powerdns S)
    unfolding powerdns
    Steady-powerdns = search calmer depth 20

    Steady-proxysql : Calm (proxysql S)
    unfolding proxysql
    Steady-proxysql = search calmer depth 20

    Steady-keystone : Calm (keystone S)
    unfolding keystone
    Steady-keystone = search calmer depth 20

    Steady-nova : Calm (nova S)
    unfolding nova
    Steady-nova = search (calmer, Steady-pair) depth 20

    Steady-mysql : Calm (mysql S)
    unfolding mysql
    Steady-mysql = search calmer depth 20

    Steady-rabbit : Calm (rabbit S)
    unfolding rabbit
    Steady-rabbit = search calmer depth 20

    Steady-ssl : Calm (ssl S)
    unfolding ssl
    Steady-ssl = search calmer depth 20

    AllCalm-config_rest : AllCalm (config_rest S)
    AllCalm-config_rest =
        search
          (
            calmer, Steady-service, Steady-ceph, Steady-etcd, Steady-powerdns, Steady-proxysql,
            Steady-keystone, Steady-nova, Steady-mysql, Steady-rabbit, Steady-ssl,
          )
          depth 40

    Steady-config : Calm (config S)
    unfolding config
    Steady-config = search (calmer, AllCalm-config_rest) depth 20

    Steady-zones : Calm (zones S)
    unfolding zones
    Steady-zones = search calmer depth 20

    pub generate-Steady : Steady S read (generate S)
    unfolding generate
    generate-Steady = search (Steady-bind, Steady-config, Steady-zones, Steady-pure)

    -- An entry of a dictionary fails, the first or a later one.
    Late-head :
        (k : String) (m : Draw S Json) (entries : List (String × Draw S Json))
        → Late S read m
        → Late S read (dict_fields S ((k, m) ∷ entries))
    unfolding dict_fields
    Late-head k m entries h = Late-first S read _ _ h

    Late-tail :
        (k : String) (m : Draw S Json) (entries : List (String × Draw S Json))
        → Calm m
        → Late S read (dict_fields S entries)
        → Late S read (dict_fields S ((k, m) ∷ entries))
    unfolding dict_fields
    Late-tail k m entries c h = Late-next S read _ _ c (λ v. Late-first S read _ _ h)

    Late-dict :
        (entries : List (String × Draw S Json))
        → Late S read (dict_fields S entries)
        → Late S read (dict S entries)
    unfolding dict
    Late-dict entries h = Late-first S read _ _ h

    Late-generate_ceph_key : Late S read (generate_ceph_key S)
    unfolding generate_ceph_key draw gets ◌>>=◌ or_raise
    Late-generate_ceph_key = record {
      fails = λ s h.
          rw
            (
              ceph_digits_late (S.time ((S.urandom 16 s).1)) ((S.urandom 16 s).0)
                  (omega (arith, (filing.same_urandom 16 s).later)),
              or_raise,
            )
            (refl, filing.same_urandom 16 s);
    }

    Late-ceph : Late S read (ceph S)
    unfolding ceph
    Late-ceph = Late-dict _ (
        Late-tail _ _ _ Steady-uuid
          (Late-head _ _ _ (Late-dict _ (Late-head _ _ _ Late-generate_ceph_key))))

    Late-config : Late S read (config S)
    unfolding config
    Late-config = search (Late-dict, Late-tail, Late-head, Late-ceph, calmer) depth 14

    pub generate-Late : Late S read (generate S)
    unfolding generate
    generate-Late = Late-first S read _ _ Late-config
