-- ===== src/Agent/Tests/World.antt =====
-- A small environment of the agent: files as a function, a clock that stands still, and units that
-- are always active.
use Prim.Native.String
use praetor.Base.{
  ◌≡◌, refl, Bool, true, false, Option, none, some, List, [], ◌∷◌, String, ◌==◌, eq_iff, eq_refl,
  if◌then◌else◌, Map,
}
use praetor.Base.Int.{pos}
use praetor.Base.Result.{ok}
use praetor.Api.{Time}
use praetor.Gateway.Types.{DesiredItem, DesiredResponse}
use praetor.Agent.Env.{Env, ManagedItem}
use praetor.Agent.Systemd.Contents.{FileLaws}
use praetor.Agent.Poll.{Config, Agent}

pub record World : Type 0 where
  pub files : String → Option String
  pub time : Time
  pub commands : List (List String)

abbrev pub update : (String → Option String) → String → Option String → String → Option String
update files p v q = if p == q then v else files q

abbrev pub with_file : World → String → Option String → World
with_file w p v = record w { files = update w.files p v }

abbrev pub temp : String
temp = ".tmp"

abbrev pub is_temp : String → Bool
is_temp p = temp == p

abbrev pub active_output : String
active_output = "MainPID=7\nExecMainStartTimestamp=n/a\nActiveState=active\nSubState=running\n"

abbrev pub stored_items : Map ManagedItem
stored_items =
    (
      "infra/agent",
      record {
        unit_name = "apollo-infra-agent.service";
        last_action_at = "T5";
        last_action_spec_hash = "h1";
        last_action_description = "restart";
      },
    )
    ∷ []

abbrev pub item : DesiredItem
item = record {
  uid = "u1";
  namespace = "infra";
  name = "agent";
  generation = pos 1;
  spec = record {
    device_ref = record { kind = "NetworkSwitch"; name = "rack1"; namespace = "" };
    artifact = record { type = "file"; url = ""; checksum_sha256 = "" };
    execution = record {
      backend = "systemd";
      command = "/bin/agent" ∷ [];
      args = "a b" ∷ [];
      env = [];
      working_dir = " /srv ";
      user = "";
    };
    restart_policy = "Never";
    health_check = none;
  };
  spec_hash = "h1";
}

abbrev pub desired : DesiredResponse
desired = record { device_name = "rack1"; heartbeat_interval_seconds = pos 15; items = item ∷ [] }

abbrev pub env : Env World
env = record {
  now = λ w. (w.time, w);
  parse_rfc3339 = λ s. if s == "T5" then some 5000000000 else none;
  format_rfc3339 = λ t. "T5";
  parse_systemd_time = λ s. none;
  parse_int = λ s. if s == "7" then pos 7 else pos 0;
  systemctl = λ args w. ((active_output, none), record w { commands = args ∷ w.commands });
  read_file = λ p w. (ok (w.files p), w);
  remove = λ p w. (ok true, with_file w p none);
  mkdir_all = λ d w. (ok tt, w);
  create_temp = λ d p w. (ok temp, with_file w temp (some ""));
  chmod = λ t n w. (ok tt, w);
  write = λ t s w. (ok tt, with_file w t (some s));
  close = λ t w. (ok tt, w);
  rename = λ t p w. (ok tt, with_file (with_file w t none) p (w.files t));
  join_path = λ a b. String.◌++◌ a (String.◌++◌ "/" b);
  dir = λ p. "/d";
  clean = λ p. p;
  abs = λ p w. (ok p, w);
  is_abs = λ p. false;
  to_lower = λ s. s;
  sha256_hex = λ s. "0123456789abcdef";
  hmac_sha256_hex = λ k s. "feed";
  ensure = λ url w. (
    (
      record {
        digest = "sha256:00";
        rootfs_path = "/rootfs";
        attempts = pos 1;
        last_attempt_time = "T5";
        last_error = "";
        downloaded = true;
        verified = true;
        download_reason = "";
        download_message = "";
        verify_reason = "";
        verify_message = "";
      },
      none,
    ),
    w,
  );
  marshal_state = λ m. "{}";
  unmarshal_state = λ s. ok (some stored_items);
  get_desired =
      λ url etag token w. (ok (record { status_code = 200; etag = "e1"; body = ok desired }), w);
  post_report = λ url version stamp obs token w. (ok 200, w);
}

abbrev pub config : Config
config = record {
  device_name = "rack1";
  gateway_url = "http://gw";
  device_token = "t";
  device_token_secret = "";
  state_path = "/state.json";
  version = "v1";
}

abbrev pub agent : Agent
agent = record {
  last_etag = "";
  last_observed = [];
  last_desired = none;
  managed = [];
  heartbeat = pos 15000000000;
}

abbrev pub world : World
world = record { files = λ p. none; time = 9000000000; commands = [] }

update_other :
    (files : String → Option String) (t q : String) (v : Option String)
    → is_temp t ≡ true
    → is_temp q ≡ false
    → update files t v q ≡ files q
update_other files t q v h k = rw (← (eq_iff temp t).0 h) (rw k refl)

pub env_laws : FileLaws env (λ w. w.files) is_temp
env_laws = record {
  read = λ p w o h. cc;
  read_keeps = λ p w q. refl;
  mkdir_keeps = λ d w q. refl;
  create_name = λ d p w t h. let same : temp ≡ t = cc in rw (← same) refl;
  create_empty = λ d p w t h. let same : temp ≡ t = cc in rw (← same) refl;
  create_keeps = λ d p w q h. rw h refl;
  chmod_keeps = λ t n w q. refl;
  write_all = λ t s w h k. rw (eq_refl t) refl;
  write_keeps = λ t s w q h k. update_other w.files t q (some s) h k;
  close_keeps = λ t w q. refl;
  rename_moves = λ t p w h. rw (eq_refl p) refl;
  rename_keeps = λ t p w q h k other. rw other (update_other w.files t q none h k);
  rename_fails = λ t p w e q h. cc;
  remove_keeps = λ t w q h k. update_other w.files t q none h k;
}
