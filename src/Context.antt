-- ===== src/Context.antt =====
-- `VarLayerContext` of backend/src/tsn_gen/var_context.h: the decoded fields of one packet, by name,
-- as the engine hands them to the logic modules; and `tsOf`, `numOf` of
-- backend/src/logic/avb_logic.h. A capture time is kept in nanoseconds, as the field `ts_ns` has it,
-- where the source divides by 1e9 into a double.
use avb_introspection.Base.{ℕ, ◌^◌, ◌%◌, Option, none, some, String, Dict, find, insert, string_key}

pub record VarLayerContext : Type 0 where
  pub vars : Dict String ℕ
  pub bytes : Dict String String

unfoldable pub get_value : VarLayerContext → String → Option ℕ
get_value c name = find name c.vars

unfoldable pub set_value : VarLayerContext → String → ℕ → VarLayerContext
set_value c name value = record c { vars = insert name value c.vars }

unfoldable pub get_bytes : VarLayerContext → String → Option String
get_bytes c name = find name c.bytes

unfoldable pub set_bytes : VarLayerContext → String → String → VarLayerContext
set_bytes c name value = record c { bytes = insert name value c.bytes }

-- The value, or 0 when the field is absent.
unfoldable pub at : VarLayerContext → String → ℕ
unfolding get_value
at c name = elim (get_value c name) [ none ↦ 0 | some v ↦ v ]

unfoldable pub ts_of : VarLayerContext → ℕ
unfolding at
ts_of c = at c "ts_ns"

unfoldable pub num_of : VarLayerContext → ℕ
unfolding at
num_of c = at c "pkt_num" % 2 ^ 32
