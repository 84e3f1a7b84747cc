-- ===== src/Lightos/Client/Payload.antt =====
-- Which requests carry a body.
use chef_bcpc.Prelude.{
  String, Bool, true, false, Option, none, some, List, [], ◌∷◌, is_some, if◌then◌else◌, str_eq, ◌≡◌,
  refl, subst,
}
use mathlib.Core.Option
use chef_bcpc.Lightos.Command.{
  Kwargs, Command, Request, lightos_commands, find_command, request_of, generate_lightos_cmd,
}
use chef_bcpc.Lightos.Session.{Env, ApiServer}
use chef_bcpc.Lightos.Client.{has_content, prepare}

module _ (E : Env) (server : ApiServer) (kw : Kwargs) where
  -- The request of a command has a body exactly if its method is POST or PUT.
  abbrev IsFit : Command → Type 0
  IsFit c =
      is_some ((prepare E server kw (request_of c)).payload) ≡ has_content (request_of c).method

  abbrev AllFit : List Command → Type 0
  AllFit [] = Unit
  AllFit (c ∷ cs) = IsFit c × AllFit cs

  table-AllFit : AllFit (lightos_commands kw)
  unfolding lightos_commands prepare request_of has_content
  table-AllFit = (
    refl,
    (
      refl,
      (
        refl,
        (
          refl,
          (
            refl,
            (refl, (refl, (refl, (refl, (refl, (refl, (refl, (refl, (refl, (refl, tt)))))))))),
          ),
        ),
      ),
    ),
  )

  FitWith : Option Command → Type 0
  FitWith none = Unit
  FitWith (some c) = IsFit c

  if-FitWith :
      (b : Bool) (d : Command) (o : Option Command)
      → IsFit d
      → FitWith o
      → FitWith (if b then some d else o)
  unfolding FitWith
  if-FitWith true d o fit rest = fit
  if-FitWith false d o fit rest = rest

  find_command-FitWith :
      (cmd : String) (cs : List Command) → AllFit cs → FitWith (find_command cmd cs)
  unfolding FitWith
  find_command-FitWith cmd [] fits = tt
  find_command-FitWith cmd (d ∷ cs) fits =
      if-FitWith (str_eq d.cmd cmd) d (find_command cmd cs) fits.0
        (find_command-FitWith cmd cs fits.1)

  fit_request :
      (o : Option Command) (r : Request)
      → FitWith o
      → Option.map request_of o ≡ some r
      → is_some ((prepare E server kw r).payload) ≡ has_content r.method
  unfolding FitWith
  fit_request none r fit h = cc h
  fit_request (some c) r fit h =
      subst (λ q. is_some ((prepare E server kw q).payload) ≡ has_content q.method) (some_same h)
        fit
    where
      some_same : {a b : Request} → some a ≡ some b → a ≡ b
      some_same h = cc h

  -- The HTTP request that is prepared for a command of the driver carries a JSON body exactly if its
  -- method is POST or PUT.
  pub prepare-has_content :
      (cmd : String) (r : Request)
      → generate_lightos_cmd cmd kw ≡ some r
      → is_some ((prepare E server kw r).payload) ≡ has_content r.method
  unfolding generate_lightos_cmd
  prepare-has_content cmd r h =
      fit_request (find_command cmd (lightos_commands kw)) r
        (find_command-FitWith cmd (lightos_commands kw) table-AllFit) h
