-- ===== src/Controller/Env/Keeps.antt =====
-- What the reconciler's calls of the API server keep of the world.
pub use praetor.Base.Act.Keeps.{
  Keeps, Keeps-pure, Keeps-raise, Keeps-value, Keeps-attempt, Keeps-call, Keeps-step, Keeps-if,
  Keeps-bind_result, Keeps-bind,
}
use praetor.Base.{String}
use praetor.Api.{LabelSelector}
use praetor.Controller.Env.{Env, step}

-- The clock, and the calls of the API server that only read, keep `P`.
pub record ReadsKeep {W : Type 0} (env : Env W) (P : W → Type 0) : Type 0 where
  pub clock : (w : W) → P w → P (env.clock w).1
  pub get_deployment :
      (namespace name : String) (w : W) → P w → P (env.get_deployment namespace name w).1
  pub get_process : (namespace name : String) (w : W) → P w → P (env.get_process namespace name w).1
  pub list_switches :
      (namespace : String) (s : LabelSelector) (w : W) → P w → P (env.list_switches namespace s w).1
  pub list_processes :
      (namespace name : String) (w : W) → P w → P (env.list_processes namespace name w).1

module _ {W : Type 0} (env : Env W) {P : W → Type 0} (reads : ReadsKeep env P) where
  pub Keeps-clock : Keeps P (step env.clock)
  Keeps-clock = Keeps-step env.clock (λ w h. reads.clock w h)

  pub Keeps-list_processes : (namespace name : String) → Keeps P (env.list_processes namespace name)
  Keeps-list_processes namespace name =
      Keeps-call _ (λ w h. reads.list_processes namespace name w h)

  pub Keeps-get_process : (namespace name : String) → Keeps P (env.get_process namespace name)
  Keeps-get_process namespace name = Keeps-call _ (λ w h. reads.get_process namespace name w h)
