-- ===== src/Lib.antt =====
-- praetor runs processes on devices from Kubernetes objects. A DeviceProcessDeployment selects
-- NetworkSwitch objects by their labels; the controller keeps one DeviceProcess for each of them; the
-- gateway answers an agent's polls with the processes of its device and writes what the agent reports
-- into their statuses.
--
-- Parts and files:
-- - Base: shared helpers: Boolean tests, lists, association lists for Go's maps (Base/Maps), texts
--   (Base/Text, Base/TextOrder, Base/TextLength), signed words with wrap-around (Base/Int), decimal
--   numbers (Base/Decimal), errors as values (Base/Result).
-- - Api: api/azure.com/v1alpha1 (deviceprocess_types.go, deviceprocessdeployment_types.go,
--   conditions_types.go) and the metadata of apimachinery that they use. A pointer is an Option.
-- - Conditions: pkg/conditions/conditions.go: FindCondition, SetCondition, MarkTrue, MarkFalse.
-- - Gateway: gateway/server.go. Gateway/Heartbeat has the registry behind the mutex (recordHeartbeat,
--   recordReport, lastSeenAndHeartbeat, normalizeHeartbeat, recordDesiredHeartbeatIfEligible, the
--   locked part of computeDesired); Gateway/Auth handleDevice and authorize; Gateway/Desired the items
--   and their hash; Gateway/Status the status that an observation gives; Gateway/Update the retry loop
--   of updateStatusForObservation; Gateway/Sweep markDeviceConnected, markDeviceDisconnected and
--   markStaleDevices; Gateway/Handlers handleDesired, handleReport and handleConnect.
-- - Controller: controller/reconcilers/deviceprocessdeployment_controller.go. Controller/Names
--   deviceProcessName; Controller/Labels selectors, labels and the desired object;
--   Controller/Requests changedLabelKeys, requestsForNetworkSwitch and enqueueRequests;
--   Controller/Apply applyDeviceProcess and upsertWithoutSSA; Controller/Cleanup cleanupStale;
--   Controller/Status updateStatus; Controller/Reconcile Reconcile and listNetworkSwitches.
-- - Agent: agent/envfile.go (Agent/EnvFile), agent/systemd/manager.go (Agent/Systemd for names and
--   commands, Agent/Systemd/Files and Show) and agent/main.go: escapeSystemdArg (Agent/Escape), itemKey
--   and splitKey (Agent/Keys), renderUnitFiles (Agent/Units), markAction and shouldAttemptAction
--   (Agent/Actions), resolveCommand (Agent/Command), and reconcile in three parts, the fetch of the
--   artifact (Agent/Artifact), the unit's start, restart and drift correction (Agent/Running) and the
--   loops over the items (Agent/Reconcile); the state file (Agent/StateFile), pollDesired, fetchDesired
--   and sendReport (Agent/Poll), and the loop of run (Agent/Run). agent/artifact_oci.go is Agent/Oci
--   (isRetryable, backoffDuration, errorString, allowPlainHTTP), Agent/Oci/Extract (extractLayer) and
--   Agent/Oci/Ensure with Agent/Oci/Results (Ensure); for the rest of the agent the fetcher is a field of
--   Agent.Env.
--
-- The state: an action of the gateway takes the registry, a world and the recorded events, and returns
-- a result or an error with the new state; an action of the controller or of the agent takes and returns the world; Base/Act has both
-- kinds of steps, those that may fail (Act) and those that do not (State). The
-- API server, the clock, hashing, JSON, time formats and the validation of names are fields of
-- Gateway.Env and Controller.Env, over any type of worlds; systemctl, the calls of os and filepath, the
-- fetcher of artifacts and the HTTP client are fields of Agent.Env. What the files hold behind these calls
-- is stated by Agent.Systemd.Contents.FileLaws, where a property needs it. What an action leaves alone is stated with
-- Keeps: a property of the world that the calls in question keep is kept by the action, whichever of
-- them fail.
--
-- Bounds: times are nanoseconds since Go's zero time; int64 and int32 wrap; the difference of two times
-- stops at the ends of int64. The retry loop runs on the attempts that are left, three as in the source, and so does the loop over the copies of an artifact; the tar reader is the
-- sequence of entries that it yields.
-- Decimal numbers have 20 digits of fuel, more than an int64 has. A map is an association list, a set of
-- keys the sorted list of them; theorems on maps hold for every order of the entries. Names are ASCII.
--
-- The loop of the agent is a relation: a round may take any time. A ticker is that of Go 1.22, the version
-- of go.mod: its channel holds one tick for a late receiver, also behind a reset, and it fires at the time
-- that it is due. Durations are natural numbers of nanoseconds.
--
-- Not modelled: the HTTP server around the handlers, JSON, log lines, the set-up of the managers and of
-- the agent, and the generated deep copies.
pub mod Agent
pub mod Api
pub mod Base
pub mod Conditions
pub mod Controller
pub mod Gateway
