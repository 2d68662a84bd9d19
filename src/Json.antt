-- ===== src/Json.antt =====
-- The part of nlohmann::json that the sources read. The library is not part of the repository, so
-- its values and calls are an argument of the model. A call that would throw (`value` on a value
-- that is no object, or on a member of another type) is outside of it.
use codex_local_qwen27b.Base.{Bool, List, Bytes}

pub record JsonLibrary : Type 1 where
  pub Json : Type 0
  pub is_array : Json → Bool
  -- The elements that a range-based `for` visits.
  pub elements : Json → List Json
  pub is_object : Json → Bool
  pub contains : Json → Bytes → Bool
  -- j[key]
  pub at : Json → Bytes → Json
  -- j.value(key, "")
  pub value : Json → Bytes → Bytes
