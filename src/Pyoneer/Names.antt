-- ===== src/Pyoneer/Names.antt =====
-- The kinds of a blueprint (blueprint/blueprint.h) and the roles of a pyoneer (pyoneer/pyoneer.h).

-- `blueprint_t`; `blueprint_other` is any int but `BLUEPRINT_JOB`.
pub data BlueprintKind : Type 0 where
  blueprint_job blueprint_other : BlueprintKind

-- `PYONEER_WORKER`, `PYONEER_MANAGER` or any other int.
pub data Role : Type 0 where
  pyoneer_worker pyoneer_manager role_other : Role
