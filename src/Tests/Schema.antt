-- ===== src/Tests/Schema.antt =====
-- A concrete start on a database of the first version.
use fleet_core.Prelude.{String, refl, List, [], ◌∷◌, ◌++◌, arith}
use fleet_core.GoMap.{get, put}
use fleet_core.Turso.{Remote, delivered}
use fleet_core.Turso.Schema.{Schema, open_turso}
use fleet_core.Turso.Schema.Upgraded.{IsEarlier}
use fleet_core.Turso.Schema.Again.{Leaves, has_in-All, open_turso_lem}
use fleet_core.Tests.Remote.{server, server-IsHrana}

-- A database of the first version whose upgrade was cut off after its first column.
abbrev first_machines : List String
first_machines =
    "id" ∷ "tenant_id" ∷ "name" ∷ "enrolled" ∷ "last_seen" ∷ "inventory" ∷ "desired" ∷ "status" ∷ []

abbrev half_upgraded : Remote Schema
half_upgraded = record {
  db = put "machines" (first_machines ++ "labels" ∷ []) [];
  fates = λ n. delivered;
  calls = 0;
}

half_upgraded-IsEarlier : IsEarlier half_upgraded.db
unfolding get put
half_upgraded-IsEarlier = (
  (λ old e. absurd (ground (arith, e))),
  (
    (λ old e. absurd (ground (arith, e))),
    (
      (λ old e.
          has_in-All first_machines old (get "machines" half_upgraded.db) e
            (refl, (refl, (refl, (refl, (refl, (refl, (refl, (refl, tt))))))))),
      (
        (λ old e. absurd (ground (arith, e))),
        ((λ old e. absurd (ground (arith, e))), ((λ old e. absurd (ground (arith, e))), tt)),
      ),
    ),
  ),
)

open_turso_lem_example : Leaves server half_upgraded.db (open_turso server half_upgraded)
open_turso_lem_example =
    open_turso_lem server server-IsHrana half_upgraded (λ n. refl) half_upgraded-IsEarlier
