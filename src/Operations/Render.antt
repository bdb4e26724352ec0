-- ===== src/Operations/Render.antt =====
-- The unit files that src/operations.rs writes for a specification.
use systemd_ops.Base.{
  Bool, true, false, not, ◌&&◌, Option, none, some, List, [], ◌∷◌, ◌++◌, map, if◌then◌else◌, any,
  Str, Bytes, codes, str_eq, join,
}
use systemd_ops.Json.{Value, ℤ}
use systemd_ops.Operations.Fields.{
  Kind, simple, oneshot, oneshot_linger, Schedule, interval, calendar, is_some,
}
use systemd_ops.Operations.Exec.{quote_word, exec_line}
use systemd_ops.Operations.Spec.{NormalizedSpec, service_type, service_name, has_install, spec_sha}

abbrev pub managed_marker : Str
managed_marker = codes "# managed: systemd-ops 1"

-- `if let Some(value) = o { lines.push(format!("..{value}")) }`.
abbrev pub line_if : Str → Option Str → List Str
line_if key none = []
line_if key (some value) = (key ++ value) ∷ []

abbrev pub line_when : Bool → Str → List Str
line_when true line = line ∷ []
line_when false line = []

abbrev pub is_nil {ℓ} : {A : Type ℓ} → List A → Bool
is_nil [] = true
is_nil (a ∷ as') = false

-- Each line with its line feed.
pub body_of_lines : List Str → Str
body_of_lines [] = []
body_of_lines (l ∷ ls) = l ++ (10 ∷ body_of_lines ls)

-- The printer of JSON and that of integers are parameters.
pub record Printers : Type 0 where
  pub to_string : Value → Bytes
  pub print_int : ℤ → Str

pub header_lines : Printers → NormalizedSpec → List Str
header_lines p spec =
    managed_marker
    ∷ (codes "# systemd-ops-spec-sha256: " ++ spec_sha p.to_string spec)
    ∷ (line_if (codes "# systemd-ops-title: ") spec.title
        ++ line_if (codes "# systemd-ops-purpose: ") spec.purpose
        ++ line_when (not (is_nil spec.tags))
            (codes "# systemd-ops-tags: " ++ join (codes ",") spec.tags)
        ++ line_if (codes "# systemd-ops-origin-cwd: ") spec.origin_cwd
        ++ line_if (codes "# systemd-ops-origin-scope: ") spec.origin_scope
        ++ line_if (codes "# systemd-ops-origin-scope-root: ") spec.origin_scope_root
        ++ (codes "# systemd-ops-created-at: " ++ spec.created_at) ∷ [])

abbrev pub network_online : Str
network_online = codes "network-online.target"

pub after_units : NormalizedSpec → List Str
after_units spec =
    if spec.wants_network_online && not (any (λ a. str_eq a network_online) spec.after)
    then spec.after ++ network_online ∷ []
    else spec.after

abbrev pub env_line : Str × Str → Str
env_line (k, v) = codes "Environment=" ++ (k ++ (b'=' ∷ quote_word v))

abbrev pub environment_file_line : Str → Str
environment_file_line f = codes "EnvironmentFile=" ++ f

abbrev pub restart_lines : Option Str → List Str
restart_lines none = []
restart_lines (some restart) =
    (codes "Restart=" ++ restart)
    ∷ line_when (not (str_eq restart (codes "no"))) (codes "RestartSec=3")

abbrev pub nice_lines : Printers → Option ℤ → List Str
nice_lines p none = []
nice_lines p (some nice) = (codes "Nice=" ++ p.print_int nice) ∷ []

abbrev pub is_linger : Kind → Bool
is_linger simple = false
is_linger oneshot = false
is_linger oneshot_linger = true

abbrev pub install_lines : Bool → Str → List Str
install_lines true target = [] ∷ codes "[Install]" ∷ (codes "WantedBy=" ++ target) ∷ []
install_lines false target = []

pub service_lines : Printers → NormalizedSpec → List Str
service_lines p spec =
    header_lines p spec
    ++ codes "[Unit]"
      ∷ (codes "Description=" ++ spec.description)
      ∷ (line_when (not (is_nil (after_units spec)))
            (codes "After=" ++ join (codes " ") (after_units spec))
          ++ line_when spec.wants_network_online (codes "Wants=network-online.target")
          ++ []
            ∷ codes "[Service]"
            ∷ (codes "Type=" ++ service_type spec.kind)
            ∷ (line_when (is_linger spec.kind) (codes "RemainAfterExit=yes")
                ++ line_if (codes "WorkingDirectory=") spec.cwd
                ++ line_when (not (is_nil spec.path))
                    (codes "Environment=PATH=" ++ join (codes ":") spec.path)
                ++ map env_line spec.env
                ++ map environment_file_line spec.environment_files
                ++ (codes "ExecStart=" ++ exec_line spec.exec_path spec.exec_argv)
                  ∷ (restart_lines spec.restart
                      ++ nice_lines p spec.nice
                      ++ install_lines (not (is_some spec.schedule) && has_install spec)
                          (codes "default.target"))))

pub render_service : Printers → NormalizedSpec → Str
render_service p spec = body_of_lines (service_lines p spec)

pub bool_word : Bool → Str
bool_word true = codes "true"
bool_word false = codes "false"

pub schedule_lines : Schedule → List Str
schedule_lines (interval on_boot on_active on_inactive persistent accuracy) =
    (codes "OnBootSec=" ++ on_boot)
    ∷ (line_if (codes "OnUnitActiveSec=") on_active
        ++ line_if (codes "OnUnitInactiveSec=") on_inactive
        ++ (codes "Persistent=" ++ bool_word persistent) ∷ line_if (codes "AccuracySec=") accuracy)
schedule_lines (calendar on_calendar persistent accuracy) =
    (codes "OnCalendar=" ++ on_calendar)
    ∷ (codes "Persistent=" ++ bool_word persistent)
    ∷ line_if (codes "AccuracySec=") accuracy

pub timer_lines : Printers → NormalizedSpec → Schedule → List Str
timer_lines p spec schedule =
    header_lines p spec
    ++ codes "[Unit]"
      ∷ (codes "Description=" ++ spec.description)
      ∷ []
      ∷ codes "[Timer]"
      ∷ (schedule_lines schedule
          ++ (codes "Unit=" ++ service_name spec) ∷ install_lines true (codes "timers.target"))

abbrev pub render_scheduled : Printers → NormalizedSpec → Option Schedule → Option Str
render_scheduled p spec none = none
render_scheduled p spec (some schedule) = some (body_of_lines (timer_lines p spec schedule))

pub render_timer : Printers → NormalizedSpec → Option Str
unfolding timer_lines
render_timer p spec = render_scheduled p spec spec.schedule
