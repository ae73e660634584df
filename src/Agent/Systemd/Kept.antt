-- ===== src/Agent/Systemd/Kept.antt =====
-- What the calls of the agent keep of the world, where they touch only units of its own.
use praetor.Base.{ℕ, Bool, true, false, [], ◌∷◌, String, eqb}
use praetor.Base.Result.{Result, ok, err}
use praetor.Base.Act.{Act, pure}
use praetor.Base.Act.State.{Preserves}
use praetor.Base.Act.Keeps.{Keeps, Keeps-pure, Keeps-call, Keeps-if, Keeps-bind}
use praetor.Agent.Env.{Env}
use praetor.Agent.Systemd.{
  unit_dir, enable_and_start, restart, stop_and_disable, daemon_reload, stop_and_disable_quiet,
}
use praetor.Agent.Systemd.Files.{
  temp_file_template, has_content, close_behind, fill, replace, write_new, set_mode,
  write_if_changed, ensure_unit_with_details, remove_if_exists, behind_unit,
  remove_unit_with_details,
}
use praetor.Agent.Systemd.Show.{show, show_args}

-- systemctl on the units of the agent, and everything that is no call of systemctl, keep `P`.
pub record OwnUnitsKeep {W : Type 0} (env : Env W) (P : W → Type 0) (IsOwn : String → Type 0)
    : Type 0 where
  pub enables :
      (unit : String) (w : W)
      → IsOwn unit
      → P w
      → P (env.systemctl ("enable" ∷ "--now" ∷ unit ∷ []) w).1
  pub restarts :
      (unit : String) (w : W) → IsOwn unit → P w → P (env.systemctl ("restart" ∷ unit ∷ []) w).1
  pub disables :
      (unit : String) (w : W)
      → IsOwn unit
      → P w
      → P (env.systemctl ("disable" ∷ "--now" ∷ unit ∷ []) w).1
  pub shows :
      (unit : String) (w : W) → IsOwn unit → P w → P (env.systemctl (show_args env unit) w).1
  pub reloads : (w : W) → P w → P (env.systemctl ("daemon-reload" ∷ []) w).1
  pub now : (w : W) → P w → P (env.now w).1
  pub fetches : (url : String) (w : W) → P w → P (env.ensure url w).1
  pub abs : (p : String) (w : W) → P w → P (env.abs p w).1
  pub reads : (p : String) (w : W) → P w → P (env.read_file p w).1
  pub removes : (p : String) (w : W) → P w → P (env.remove p w).1
  pub makes : (p : String) (w : W) → P w → P (env.mkdir_all p w).1
  pub creates : (d p : String) (w : W) → P w → P (env.create_temp d p w).1
  pub sets : (t : String) (n : ℕ) (w : W) → P w → P (env.chmod t n w).1
  pub writes : (t s : String) (w : W) → P w → P (env.write t s w).1
  pub closes : (t : String) (w : W) → P w → P (env.close t w).1
  pub renames : (t p : String) (w : W) → P w → P (env.rename t p w).1

module _ {W : Type 0} (env : Env W) {P : W → Type 0} {IsOwn : String → Type 0}
    (keep : OwnUnitsKeep env P IsOwn) where
  pub enable-Preserves : (unit : String) → IsOwn unit → Preserves P (enable_and_start env unit)
  unfolding enable_and_start
  enable-Preserves unit own = record { at = λ w p. keep.enables unit w own p }

  pub restart-Preserves : (unit : String) → IsOwn unit → Preserves P (restart env unit)
  unfolding restart
  restart-Preserves unit own = record { at = λ w p. keep.restarts unit w own p }

  pub stop-Preserves : (unit : String) → IsOwn unit → Preserves P (stop_and_disable_quiet env unit)
  unfolding stop_and_disable_quiet stop_and_disable
  stop-Preserves unit own = record { at = λ w p. keep.disables unit w own p }

  pub show-Preserves : (unit : String) → IsOwn unit → Preserves P (show env unit)
  unfolding show
  show-Preserves unit own = record { at = λ w p. keep.shows unit w own p }

  pub reload-Preserves : Preserves P (daemon_reload env)
  unfolding daemon_reload
  reload-Preserves = record { at = λ w p. keep.reloads w p }

  close_behind-Keeps :
      {A : Type 0} (t : String) (r : Result A) (w : W) → P w → P (close_behind env t r w).1
  unfolding close_behind
  close_behind-Keeps t (ok a) w p = p
  close_behind-Keeps t (err e) w p = keep.closes t w p

  set_mode-Keeps : (n : ℕ) (t : String) → Keeps P (set_mode env n t)
  unfolding set_mode
  set_mode-Keeps n t =
      Keeps-if (eqb n 0) (pure tt) (env.chmod t n) (λ _. Keeps-pure tt)
        (λ _. Keeps-call (env.chmod t n) (λ w p. keep.sets t n w p))

  fill-Keeps :
      (t content : String) (set : Act W (Unit {0})) → Keeps P set → Keeps P (fill env t set content)
  unfolding fill
  fill-Keeps t content set ks = record {
    at = λ w p. close_behind-Keeps t _ _ (
        (Keeps-bind set (λ _. env.write t content) ks
            (λ _. Keeps-call (env.write t content) (λ v q. keep.writes t content v q))).at
          w p);
  }

  replace-Keeps :
      (path t content : String) (set : Act W (Unit {0}))
      → Keeps P set
      → Keeps P (replace env path t set content)
  unfolding replace
  replace-Keeps path t content set ks =
      Keeps-bind (fill env t set content) _ (fill-Keeps t content set ks) (λ _.
        Keeps-bind (env.close t) _ (Keeps-call (env.close t) (λ w p. keep.closes t w p))
          (λ _. Keeps-call (env.rename t path) (λ w p. keep.renames t path w p)))

  pub write_new-Keeps :
      (pattern path content : String) (set : String → Act W (Unit {0}))
      → ((t : String) → Keeps P (set t))
      → Keeps P (write_new env pattern path content set)
  unfolding write_new
  write_new-Keeps pattern path content set ks =
      Keeps-bind (env.mkdir_all (env.dir path)) _
        (Keeps-call _ (λ w p. keep.makes (env.dir path) w p))
        (λ _.
          Keeps-bind (env.create_temp (env.dir path) pattern) _
            (Keeps-call _ (λ w p. keep.creates (env.dir path) pattern w p))
            (λ t. record {
              at = λ w p. keep.removes t _ ((replace-Keeps path t content (set t) (ks t)).at w p);
            }))

  write_if_changed-Keeps :
      (path content : String) (perm : ℕ) → Keeps P (write_if_changed env path content perm)
  unfolding write_if_changed
  write_if_changed-Keeps path content perm =
      Keeps-bind (env.read_file path) _ (Keeps-call _ (λ w p. keep.reads path w p)) (λ existing.
        Keeps-if (has_content content existing) _ _ (λ _. Keeps-pure false)
          (λ _.
            Keeps-bind (write_new env temp_file_template path content (set_mode env perm)) _
              (write_new-Keeps temp_file_template path content (set_mode env perm)
                (λ t. set_mode-Keeps perm t))
              (λ _. Keeps-pure true)))

  pub ensure_unit-Preserves :
      (unit unit_content env_path env_content : String)
      → Preserves P (ensure_unit_with_details env unit unit_content env_path env_content)
  unfolding ensure_unit_with_details
  ensure_unit-Preserves unit unit_content env_path env_content = record {
    at =
        (Keeps-bind (write_if_changed env (env.join_path unit_dir unit) unit_content 0o644) _
          (write_if_changed-Keeps (env.join_path unit_dir unit) unit_content 0o644)
          (λ unit_changed.
            Keeps-bind (env.mkdir_all (env.dir env_path)) _
              (Keeps-call _ (λ w p. keep.makes (env.dir env_path) w p))
              (λ _.
                Keeps-bind (write_if_changed env env_path env_content 0o600) _
                  (write_if_changed-Keeps env_path env_content 0o600)
                  (λ env_changed. Keeps-pure (unit_changed, env_changed))))).at;
  }

  behind_unit-Keeps :
      (first : Result Bool) (env_path : String) (w : W)
      → P w
      → P (behind_unit first (remove_if_exists env env_path) w).1
  unfolding remove_if_exists
  behind_unit-Keeps (ok unit_removed) env_path w p = keep.removes env_path w p
  behind_unit-Keeps (err e) env_path w p = p

  pub remove_unit-Preserves :
      (unit_path env_path : String) → Preserves P (remove_unit_with_details env unit_path env_path)
  unfolding remove_unit_with_details remove_if_exists
  remove_unit-Preserves unit_path env_path = record {
    at = λ w p. behind_unit-Keeps _ env_path _ (keep.removes unit_path w p);
  }
