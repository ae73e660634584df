-- ===== src/Agent/Tests/Isolation.antt =====
-- The commands of a run of `reconcile` in the small environment, and the unit they are about.
use praetor.Base.{
  ◌≡◌, refl, Bool, true, false, List, [], ◌∷◌, String, ◌==◌, ◌||◌, All, if◌then◌else◌,
}
use praetor.Agent.Systemd.{paths_for}
use praetor.Agent.Systemd.Kept.{OwnUnitsKeep}
use praetor.Agent.Poll.{reconcile}
use praetor.Agent.Poll.Isolated.{reconcile-Preserves}
use praetor.Agent.Tests.World.{World, env, config, world, desired, stored_items}

abbrev own_unit : String
own_unit = "apollo-infra-agent.service"

abbrev is_about_own : List String → Bool
is_about_own [] = false
is_about_own (word ∷ words) = word == own_unit || is_about_own words

abbrev is_own_command : List String → Bool
is_own_command [] = false
is_own_command (word ∷ words) = if word == "daemon-reload" then true else is_about_own words

abbrev Careful : World → Type 0
Careful w = All (λ args. is_own_command args ≡ true) w.commands

env_keeps : OwnUnitsKeep env Careful (λ unit. unit ≡ own_unit)
env_keeps = record {
  enables = λ unit w own p. (rw own refl, p);
  restarts = λ unit w own p. (rw own refl, p);
  disables = λ unit w own p. (rw own refl, p);
  shows = λ unit w own p. (rw own refl, p);
  reloads = λ w p. (refl, p);
  now = λ w p. p;
  fetches = λ url w p. p;
  abs = λ q w p. p;
  reads = λ q w p. p;
  removes = λ q w p. p;
  makes = λ q w p. p;
  creates = λ d q w p. p;
  sets = λ t n w p. p;
  writes = λ t s w p. p;
  closes = λ t w p. p;
  renames = λ t q w p. p;
}

wanted_unit : (paths_for env "infra" "agent").unit_name ≡ own_unit
unfolding paths_for
wanted_unit = refl

reconcile-Preserves_example : Careful (reconcile env config stored_items desired world).1
reconcile-Preserves_example =
    reconcile-Preserves env env_keeps config stored_items desired world (wanted_unit, tt) (refl, tt)
      tt
