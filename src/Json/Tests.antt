-- ===== src/Json/Tests.antt =====
-- The messages of src/json.rs, and one that quotes a unit.
use systemd_ops.Base.{◌≡◌, refl, codes, contains_str}
use systemd_ops.Json.Envelope.{classify, manager_mismatch, not_found, stale_plan}

mismatch_code :
    classify (codes "plan token is for the user manager; current manager is system")
    ≡ manager_mismatch
unfolding classify contains_str
mismatch_code = refl

no_such_unit_code : classify (codes "no such unit: a.service") ≡ not_found
unfolding classify contains_str
no_such_unit_code = refl

-- The name of the unit decides the code.
stale_in_name_code : classify (codes "no such unit: stale-cache.service") ≡ stale_plan
unfolding classify contains_str
stale_in_name_code = refl
