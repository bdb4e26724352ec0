-- ===== src/Automation/Records.antt =====
-- The records that src/automation.rs keeps in the home of an operation, and their checks, of what
-- serde and `toml` read.
pub mod Laws
use systemd_ops.Base.{
  ℕ, zero, suc, ◌+◌, ◌-◌, ◌*◌, ◌/◌, ◌%◌, ◌^◌, ◌≤◌, ◌<◌, min, max, String, ◌≡◌, refl, sym, ap, ap₂,
  ◌∙◌, subst, ◌≢◌, ◌↔◌, ◌⊎◌, inl, inr, Bool, true, false, not, ◌&&◌, ◌||◌, Option, none, some, List,
  [], ◌∷◌, ◌++◌, map, reverse, arith, ltb, leb, ◌==◌, if◌then◌else◌, within, leb→le, ltb→lt, ==_iff,
  Bool-cases, Option-cases, length, get_or, take, drop, replicate, all, any, retain, All,
  length-append, length-take, length-drop, length-replicate, length-map, All-append, Str, Bytes,
  IsByte, codes, str_eq, str_eq_iff, str_eq_refl, utf8_char, as_bytes, len, is_empty,
  is_ascii_lower, is_ascii_upper, is_ascii_digit, is_ascii_alphanumeric, is_whitespace, contains,
  trim_start, trim_end, trim, strip_prefix, starts_with, ends_with, contains_str, split, split_once,
  lines, join, ascii_lower, push_front, Result, ok, err, ◌>>=◌, ◌>>◌, ensure, ok_or, all_below,
  all_below_sound, bind-eq-ok, if-eq-ok, ensure-eq-ok, ok-injective, Result-cases,
}
use systemd_ops.Files.{Disk, exists, is_symlink, join_path, read}
use systemd_ops.Json.{ℤ, pos, negsuc}
use systemd_ops.Operator.{strict_single_line}
use systemd_ops.Scope.Manifest.{sort, dedup}
use systemd_ops.Sha256.{sha256_hex}
use systemd_ops.Systemd.Clock.{print_u64}

abbrev pub max_opaque : ℕ
max_opaque = 128

abbrev pub max_observer_value : ℕ
max_observer_value = 512

abbrev pub blocker_kinds : List Str
blocker_kinds =
    codes "iteration-failed"
    ∷ codes "worktree-dirty"
    ∷ codes "worktree-diverged"
    ∷ codes "worktree-detached"
    ∷ codes "worktree-missing"
    ∷ codes "native-provisioning"
    ∷ codes "contract-failure"
    ∷ codes "stale-generation"
    ∷ codes "postcondition-failed"
    ∷ codes "semantic-blocked"
    ∷ []

abbrev pub blocker_routes : List Str
blocker_routes = codes "self" ∷ codes "parent" ∷ codes "lead" ∷ []

pub record ObserverPayload : Type 0 where
  pub version : ℕ
  pub world_fingerprint : Str
  pub generation : Option Str

pub record Checkpoint : Type 0 where
  pub version : ℕ
  pub input_fingerprint : Str
  pub generation : Option Str
  pub output_revision : Option Str
  pub checkpointed_at : Str

pub record Blocker : Type 0 where
  pub version : ℕ
  pub id : Str
  pub input_fingerprint : Option Str
  pub kind : Str
  pub route : Str
  pub at : Str
  pub iteration_id : Option Str
  pub code : Option ℤ
  pub summary : Str

pub record ObservationConfig : Type 0 where
  pub exec : Str
  pub args : List Str

pub record AutomationMetadata : Type 0 where
  pub version : ℕ
  pub agent : Str
  pub parent : Option Str
  pub brain_paths : List Str
  pub observation : Option ObservationConfig
  pub output_revision_required : Bool

pub data NotifyEvent : Type 0 where
  checkpoint blocked completed : NotifyEvent

pub event_of : Str → Result NotifyEvent
event_of s =
    if str_eq s (codes "checkpoint")
    then ok checkpoint
    else if str_eq s (codes "blocked")
    then ok blocked
    else if str_eq s (codes "completed")
    then ok completed
    else err
        (codes "unknown notify event '" ++ (s ++ codes "' (known: checkpoint, blocked, completed)"))

abbrev pub value_or : Option Str → Str → Str
value_or none d = d
value_or (some s) d = s

pub event_parse : Option Str → Result NotifyEvent
event_parse raw = event_of (value_or raw (codes "checkpoint"))

pub event_str : NotifyEvent → Str
event_str checkpoint = codes "checkpoint"
event_str blocked = codes "blocked"
event_str completed = codes "completed"

abbrev pub is_agent_char : ℕ → Bool
is_agent_char b = is_ascii_lower b || is_ascii_digit b

pub is_agent_name : Bytes → Bool
is_agent_name [] = false
is_agent_name (b ∷ bs) =
    leb (length (b ∷ bs)) 64 && (is_agent_char b && all (λ c. is_agent_char c || c == b'-') bs)

pub validate_agent_name : Str → Result (Unit {0})
validate_agent_name name =
    ensure (is_agent_name (as_bytes name))
      (codes "agent must be 1..64 lowercase letters, digits, or non-leading hyphens")

-- `path.is_absolute()` and a component that is not normal are std's: `is_plain` tells neither.
pub validate_relative_path : (Str → Bool) → Str → Str → Result (Unit {0})
validate_relative_path is_plain label path = do
  ensure (not (is_empty path) && leb (len path) 512) (label ++ codes " must be 1..512 characters")
  ensure (is_plain path) (label ++ codes " must be a relative path without traversal")

abbrev pub one_line : Str → Bool
one_line s = not (contains s 10 || (contains s 13 || contains s 0))

pub validate_observer_value : Str → Str → Result Str
validate_observer_value label value = do
  ensure (not (is_empty value) && (leb (length value) max_observer_value && one_line value)) (
      label
      ++ (codes " must be one non-empty line of at most "
          ++ (print_u64 max_observer_value ++ codes " characters")))
  ok value

pub check_args : List Str → Result (Unit {0})
check_args [] = ok tt
check_args (arg ∷ rest) = do
  ensure (leb (length arg) max_observer_value && one_line arg) (
      codes "observation.args entries must be one line of at most "
      ++ (print_u64 max_observer_value ++ codes " characters"))
  check_args rest

pub validate_observation_config : (Str → Bool) → ObservationConfig → Result (Unit {0})
validate_observation_config is_plain config = do
  validate_relative_path is_plain (codes "observation.exec") config.exec
  ensure (leb (length config.args) 32) (codes "observation.args is limited to 32 entries")
  check_args config.args

abbrev pub transposed : Result Str → Result (Option Str)
transposed (ok s) = ok (some s)
transposed (err e) = err e

abbrev pub check_option : (Str → Result Str) → Option Str → Result (Option Str)
check_option check none = ok none
check_option check (some s) = transposed (check s)

pub validate_payload : ObserverPayload → Result ObserverPayload
validate_payload payload = do
  ensure (payload.version == 1) (codes "observer version must be 1")
  world ← validate_observer_value (codes "world_fingerprint") payload.world_fingerprint
  generation ← check_option (validate_observer_value (codes "generation")) payload.generation
  ok (record { version = 1; world_fingerprint = world; generation = generation })

abbrev pub in_message {ℓ} : {A : Type ℓ} → Str → Result A → Result A
in_message message (ok a) = ok a
in_message message (err e) = err (message ++ e)

-- `serde_json::from_slice` of the payload is a parameter.
pub parse_observer_payload : (Bytes → Result ObserverPayload) → Bytes → Result ObserverPayload
parse_observer_payload from_slice bytes = do
  payload ← in_message (codes "observer output is not one valid JSON object: ") (from_slice bytes)
  validate_payload payload

abbrev pub desired_line : Option Bytes → Str
desired_line none = []
desired_line (some bytes) = codes "desired=" ++ (sha256_hex bytes ++ (10 ∷ []))

pub effective_input_fingerprint : Str → Str → Option Bytes → Str
effective_input_fingerprint world brain desired = sha256_hex (
    as_bytes (
      (codes "world=" ++ (world ++ ((10 ∷ codes "brain=") ++ (brain ++ (10 ∷ [])))))
      ++ desired_line desired))

pub check_paths : (Str → Bool) → List Str → Result (Unit {0})
check_paths is_plain [] = ok tt
check_paths is_plain (path ∷ rest) = do
  validate_relative_path is_plain (codes "brain_paths entry") path
  check_paths is_plain rest

abbrev pub check_parent : (Str → Result (Unit {0})) → Option Str → Result (Unit {0})
check_parent validate_stem none = ok tt
check_parent validate_stem (some parent) = validate_stem parent

abbrev pub check_observation : (Str → Bool) → Option ObservationConfig → Result (Unit {0})
check_observation is_plain none = ok tt
check_observation is_plain (some config) = validate_observation_config is_plain config

-- `operator::validate_stem` is an argument.
pub normalize_metadata :
    (Str → Bool) → (Str → Result (Unit {0})) → AutomationMetadata → Result AutomationMetadata
normalize_metadata is_plain validate_stem metadata = do
  ensure (metadata.version == 1) (codes "automation.toml version must be 1")
  validate_agent_name metadata.agent
  check_parent validate_stem metadata.parent
  ensure (leb (length metadata.brain_paths) 32) (codes "brain_paths is limited to 32 entries")
  check_paths is_plain metadata.brain_paths
  check_observation is_plain metadata.observation
  ok (record metadata { brain_paths = dedup (sort metadata.brain_paths) })

unfoldable pub validate_opaque : Str → Str → Result Str
validate_opaque label value = strict_single_line label value max_opaque

pub optional_opaque : Str → Option Str → Result (Option Str)
optional_opaque label none = ok none
optional_opaque label (some value) =
    if is_empty (trim value) then ok none else transposed (validate_opaque label value)

pub validate_checkpoint : Checkpoint → Result Checkpoint
validate_checkpoint c = do
  ensure (c.version == 1 || c.version == 2) (codes "checkpoint version must be 1 or 2")
  input ← validate_opaque (codes "checkpoint input_fingerprint") c.input_fingerprint
  generation ← optional_opaque (codes "checkpoint generation") c.generation
  output ← optional_opaque (codes "checkpoint output_revision") c.output_revision
  moment ← strict_single_line (codes "checkpointed_at") c.checkpointed_at max_opaque
  ok (record {
    version = c.version;
    input_fingerprint = input;
    generation = generation;
    output_revision = output;
    checkpointed_at = moment;
  })

abbrev pub is_some {ℓ} : {A : Type ℓ} → Option A → Bool
is_some none = false
is_some (some a) = true

abbrev pub known_of : List Str → Str → Bool
known_of known s = any (λ k. str_eq k s) known

unfoldable pub route_of : Str → Result Str
route_of route =
    if is_empty (trim route)
    then ok (codes "self")
    else strict_single_line (codes "blocker route") route 16

unfoldable pub iteration_of : Option Str → Result (Option Str)
iteration_of none = ok none
iteration_of (some value) =
    if is_empty (trim value)
    then ok none
    else transposed (strict_single_line (codes "blocker iteration_id") value 80)

unfoldable pub validate_blocker : Blocker → Result Blocker
validate_blocker b = do
  ensure (b.version == 1 || b.version == 2) (codes "blocker version must be 1 or 2")
  id ← validate_opaque (codes "blocker id") b.id
  input ← check_option (validate_opaque (codes "blocker input_fingerprint")) b.input_fingerprint
  ensure (not (b.version == 2 && not (is_some input)))
      (codes "blocker version 2 requires input_fingerprint")
  kind ← strict_single_line (codes "blocker kind") b.kind 64
  ensure (known_of blocker_kinds kind) (
      codes "unknown blocker kind '"
      ++ (kind ++ (codes "' (known: " ++ (join (codes ", ") blocker_kinds ++ codes ")"))))
  route ← route_of b.route
  ensure (known_of blocker_routes route)
      (codes "unknown blocker route '" ++ (route ++ codes "' (known: self, parent, lead)"))
  moment ← strict_single_line (codes "blocker at") b.at max_opaque
  iteration ← iteration_of b.iteration_id
  summary ← strict_single_line (codes "blocker summary") b.summary 200
  ok (record {
    version = b.version;
    id = id;
    input_fingerprint = input;
    kind = kind;
    route = route;
    at = moment;
    iteration_id = iteration;
    code = b.code;
    summary = summary;
  })
