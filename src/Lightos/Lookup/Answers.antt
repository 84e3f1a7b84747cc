-- ===== src/Lightos/Lookup/Answers.antt =====
-- A wait that ends with the state `Available` has just read that state.
use chef_bcpc.Prelude.{
  ℕ, ◌+◌, ◌==◌, ◌&&◌, ◌||◌, not, Bool, true, false, Option, none, some, ◌≡◌, refl, inl, inr, arith,
  if◌then◌else◌, eq_iff, subst, sym, ◌∙◌,
}
use chef_bcpc.Json.{Json, null, bool, num, str, arr, obj, Fields, lookup, truthy}
use chef_bcpc.Run.{pure, ◌>>◌, unbound_local_error, attribute_error}
use chef_bcpc.Run.Loop.{Step, again, leave, while_until}
use chef_bcpc.Run.Returns.{Gave, bind-Gave, pure-Gave, raise-Gave, while_until-Gave}
use chef_bcpc.Dynamic.{get, assert, or_default}
use chef_bcpc.Lightos.Session.{Env, Session, Action, Reply, clock}
use chef_bcpc.Lightos.Client.Answers.{LastReply, send_cmd-LastReply}
use chef_bcpc.Lightos.Lookup.{
  http_ok, http_not_found, is_one_of, settled_states, op_timeout, now, sleep_second,
  get_lightos_volume, state_of, last_state, available_round, poll, wait_for_volume_available,
}

-- A reply that shows its volume available.
pub record IsAvailable (reply : Reply) : Type 0 where
  pub status_ok : reply.0 ≡ 200
  pub fields : Fields
  pub is_dict : reply.1 ≡ obj fields
  pub state : lookup "state" fields ≡ some (str "Available")

available-ne-unknown : str "UNKNOWN" ≡ str "Available" → ⊥
available-ne-unknown h = ground (arith, eq_iff "UNKNOWN" "Available")

module _ (E : Env) where
  if_send-LastReply :
      (b : Bool) (m n : Action E Reply) (s : Session E) (reply : Reply) (t : Session E)
      → ((u : Session E) → Gave (m u) reply t → LastReply E t reply)
      → ((u : Session E) → Gave (n u) reply t → LastReply E t reply)
      → Gave ((if b then m else n) s) reply t
      → LastReply E t reply
  if_send-LastReply true m n s reply t hm hn h = hm s h
  if_send-LastReply false m n s reply t hm hn h = hn s h

  pub get_lightos_volume-LastReply :
      (project : Json) (timeout : ℕ) (uuid name : Json) (s : Session E) (reply : Reply)
      (t : Session E)
      → Gave (get_lightos_volume E project timeout uuid name s) reply t
      → LastReply E t reply
  unfolding get_lightos_volume
  get_lightos_volume-LastReply project timeout uuid name s reply t h =
      let (_, _, g) = bind-Gave (assert (truthy uuid || truthy name)) _ s reply t h in
      if_send-LastReply (truthy uuid) _ _ _ reply t
        (λ u. send_cmd-LastReply E _ timeout _ u reply t)
        (λ u. send_cmd-LastReply E _ timeout _ u reply t) g

  default_state :
      (o : Option Json)
      → or_default (str "UNKNOWN") o ≡ str "Available"
      → o ≡ some (str "Available")
  default_state none h = absurd (available-ne-unknown h)
  default_state (some v) h = cc h

  get-available :
      (resp : Json) (s t : Session E)
      → Gave (get "state" (str "UNKNOWN") resp s) (str "Available") t
      → (fs : Fields) × (resp ≡ obj fs) × (lookup "state" fs ≡ some (str "Available")) × (s ≡ t)
  unfolding get
  get-available (obj fs) s t h =
      let (e, same) = pure-Gave _ _ s t h in (fs, refl, default_state (lookup "state" fs) e, same)
  get-available null s t h = absurd (raise-Gave attribute_error _ s t h)
  get-available (bool b) s t h = absurd (raise-Gave attribute_error _ s t h)
  get-available (num n) s t h = absurd (raise-Gave attribute_error _ s t h)
  get-available (str x) s t h = absurd (raise-Gave attribute_error _ s t h)
  get-available (arr xs) s t h = absurd (raise-Gave attribute_error _ s t h)

  state_if :
      (b : Bool) (status : ℕ) (resp : Json) (s t : Session E)
      → (b ≡ true → status ≡ 200)
      → Gave
          ((if b then get "state" (str "UNKNOWN") resp else pure (str "UNKNOWN")) s)
          (str "Available")
          t
      → IsAvailable (status, resp) × (s ≡ t)
  state_if true status resp s t ok h =
      let (fs, e, found, same) = get-available resp s t h in
      (record { status_ok = ok refl; fields = fs; is_dict = e; state = found }, same)
  state_if false status resp s t ok h =
      absurd (available-ne-unknown ((pure-Gave (str "UNKNOWN") _ s t h).0))

  state_of-IsAvailable :
      (reply : Reply) (s t : Session E)
      → Gave (state_of E reply s) (str "Available") t
      → IsAvailable reply × (s ≡ t)
  unfolding state_of
  state_of-IsAvailable (status, resp) s t h =
      state_if (status == http_ok && truthy resp) status resp s t (λ e. ground arith) h

  -- The state with which a round ended.
  abbrev EndedWith : Json → Step (Option Json) Json → Type 0
  EndedWith state (leave v) = v ≡ state
  EndedWith state (again (some v)) = v ≡ state
  EndedWith state (again none) = ⊥

  last_state-Gave :
      (last : Step (Option Json) Json) (s : Session E) (state : Json) (t : Session E)
      → Gave (last_state E last s) state t
      → EndedWith state last × (s ≡ t)
  last_state-Gave (leave v) s state t h = pure-Gave v state s t h
  last_state-Gave (again (some v)) s state t h = pure-Gave v state s t h
  last_state-Gave (again none) s state t h = absurd (raise-Gave unbound_local_error state s t h)

  settles :
      (reply : Reply)
      → IsAvailable reply
      → (is_one_of settled_states (str "Available") && not (reply.0 == http_not_found)) ≡ true
  settles (status, resp) a = ground (arith, a.status_ok)

  round_end :
      (b : Bool) (state : Json) (s : Session E) (last : Step (Option Json) Json) (t : Session E)
      → EndedWith (str "Available") last
      → Gave
          ((if b then pure (leave state) else (sleep_second E >> pure (again (some state)))) s)
          last
          t
      → (state ≡ str "Available") × (b ≡ true → s ≡ t)
  round_end true state s last t ended h =
      let (e, same) = pure-Gave (leave state) last s t h in (shown e, λ _. same)
    where
      shown : leave state ≡ last → state ≡ str "Available"
      shown e = subst (λ v. EndedWith (str "Available") v) (sym e) ended
  round_end false state s last t ended h =
      let (_, _, g) = bind-Gave (sleep_second E) (λ _. pure (again (some state))) s last t h in
      let (e, _) = pure-Gave (again (some state)) last _ t g in
      (subst (λ v. EndedWith (str "Available") v) (sym e) ended, λ f. cc f)

  available_round-LastReply :
      (ask : Action E Reply) (u : Option Json) (s : Session E) (last : Step (Option Json) Json)
      (t : Session E)
      → ((v : Session E) (reply : Reply) (w : Session E)
          → Gave (ask v) reply w
          → LastReply E w reply)
      → EndedWith (str "Available") last
      → Gave (available_round E ask u s) last t
      → (reply : Reply) × LastReply E t reply × IsAvailable reply
  unfolding available_round
  available_round-LastReply ask u s last t asked ended h =
      let (reply, e1, h1) = bind-Gave ask _ s last t h in
      let (state, e2, h2) = bind-Gave (state_of E reply) _ _ last t h1 in
      let (shown, same) = round_end _ state _ last t ended h2 in
      let (a, e3) = state_of-IsAvailable reply ((ask s).1) _ (cc (e2, shown), refl) in
      let b = settles reply a in
      (
        reply,
        subst (λ v. LastReply E v reply) (e3 ∙ same (rw shown b))
            (asked s reply ((ask s).1) (e1, refl)),
        a,
      )

  poll-LastReply :
      (timeout : ℕ) (ask : Action E Reply) (s t : Session E)
      → ((v : Session E) (reply : Reply) (w : Session E)
          → Gave (ask v) reply w
          → LastReply E w reply)
      → Gave (poll E timeout (available_round E ask) s) (str "Available") t
      → (reply : Reply) × LastReply E t reply × IsAvailable reply
  unfolding poll
  poll-LastReply timeout ask s t asked h =
      let (time, _, h1) = bind-Gave (now E) _ s _ t h in
      let (last, e, h2) =
        bind-Gave (while_until (clock E) (time + timeout) (available_round E ask) none) _ _ _ t
          h1 in
      let (ended, same) = last_state-Gave last _ (str "Available") t h2 in
      elim (while_until-Gave (available_round E ask) (clock E) (time + timeout) none _ last t
        (e, same)) [
          | inl stopped ↦ absurd (subst (λ v. EndedWith (str "Available") v) (stopped.0) ended)
          | inr (u, r, g) ↦ available_round-LastReply ask u r last t asked ended g
        ]

  -- `_wait_for_volume_available` answers `Available` only if the last request on record, a reply
  -- with status 200, says so.
  pub wait_for_volume_available-IsAvailable :
      (project : Json) (timeout : ℕ) (uuid name : Json) (s t : Session E)
      → Gave (wait_for_volume_available E project timeout uuid name s) (str "Available") t
      → (reply : Reply) × LastReply E t reply × IsAvailable reply
  unfolding wait_for_volume_available
  wait_for_volume_available-IsAvailable project timeout uuid name s t h =
      let (_, _, h1) = bind-Gave (assert (truthy uuid || truthy name)) _ s _ t h in
      let (op, _, h2) = bind-Gave (op_timeout E) _ _ _ t h1 in
      poll-LastReply timeout (get_lightos_volume E project op uuid name) _ t
        (λ v reply w. get_lightos_volume-LastReply project op uuid name v reply w) h2
