-- ===== src/Agent/Systemd/Show.antt =====
-- agent/systemd/manager.go: what `systemctl show` tells of a unit.
use Prim.Native.String
use Prim.Native.String.{String}
use praetor.Base.{
  ◌||◌, Option, none, some, List, [], ◌∷◌, ◌==◌, if◌then◌else◌, trim_space, trim_prefix, has_prefix,
  split, join,
}
use praetor.Base.Int.{ℤ}
use praetor.Base.Result.{Result, ok, err, other}
use praetor.Api.{Time}
use praetor.Agent.Env.{Env}
use praetor.Agent.Systemd.{systemctl_error}

pub record Shown : Type 0 where
  pub pid : ℤ
  pub start_time : Time
  pub active_state : String
  pub sub_state : String

-- The value of the first line of a key.
unfoldable pub get : List String → String → String
unfolding has_prefix trim_prefix
get [] key = ""
get (line ∷ lines) key =
    let rest = get lines key in
    let prefix = String.◌++◌ key "=" in
    if has_prefix line prefix then trim_prefix prefix line else rest

abbrev pub some_or : Option Time → Result Time → Result Time
some_or none r = r
some_or (some t) r = ok t

module _ {W : Type 0} (env : Env W) where
  -- The zero time for no timestamp.
  unfoldable pub parse_timestamp : String → Result Time
  unfolding trim_space join
  parse_timestamp text =
      let val = trim_space text in
      if val == "" || env.to_lower val == "n/a"
      then ok 0
      else some_or (env.parse_systemd_time val) (
          some_or (env.parse_rfc3339 val)
            (err (other (join ("unrecognized timestamp: " ∷ val ∷ [])))))

  -- The zero time comes with an error.
  abbrev pub time_of : Result Time → Time
  time_of (ok t) = t
  time_of (err e) = 0

  unfoldable pub read_show : String → Shown
  unfolding split get parse_timestamp trim_space
  read_show out =
      let lines = split 10 out in
      record {
        pid = env.parse_int (trim_space (get lines "MainPID"));
        start_time = time_of (parse_timestamp (trim_space (get lines "ExecMainStartTimestamp")));
        active_state = get lines "ActiveState";
        sub_state = get lines "SubState";
      }

  unfoldable pub show_answer : String → String × Option String → Result Shown
  unfolding read_show systemctl_error
  show_answer unit (out, none) = ok (read_show out)
  show_answer unit (out, some error) =
      err (other (systemctl_error (String.◌++◌ "show " unit) error out))

  abbrev pub show_args : String → List String
  show_args unit =
      "show" ∷ unit ∷ "-p" ∷ "MainPID" ∷ "-p" ∷ "ExecMainStartTimestamp" ∷ "-p" ∷ "ActiveState"
      ∷ "-p" ∷ "SubState" ∷ []

  unfoldable pub show : String → W → Result Shown × W
  unfolding show_answer
  show unit w = let (answer, w') = env.systemctl (show_args unit) w in (show_answer unit answer, w')
