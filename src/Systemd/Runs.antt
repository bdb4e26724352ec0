-- ===== src/Systemd/Runs.antt =====
-- The runs of `systemctl` that src/systemd.rs starts. What a run answers is a parameter, which may
-- depend on all runs before it; the runs are recorded, the last one first.
use systemd_ops.Base.{Str, List, ◌∷◌, Result, codes}
use systemd_ops.Base.Steps.{StepOf}
pub use systemd_ops.Base.Steps.{◌>>=◌, ◌>>◌, give}
use systemd_ops.Systemd.Names.{Manager, system, user}

-- The arguments of one run.
abbrev pub Command : Type 0
Command = List Str

-- `Proc::output`: standard output and error, decoded by `from_utf8_lossy`, of a run that succeeds,
-- and otherwise the message of `classify_proc_output`.
pub record Systemctl : Type 0 where
  pub output : List Command → Command → Result (Str × Str)

-- A computation that runs commands.
abbrev pub Step {ℓ} : Type ℓ → Type ℓ
Step A = StepOf (List Command) A

abbrev pub manager_args : Manager → Command → Command
manager_args system args = args
manager_args user args = codes "--user" ∷ args

-- `systemctl().args(args).output()`.
unfoldable pub systemctl : Systemctl → Manager → Command → Step (Str × Str)
systemctl ctl m args log = (ctl.output log (manager_args m args), manager_args m args ∷ log)
