-- ===== src/ToolCall/Schema/Meets.antt =====
-- What holds of arguments that a schema has let through (960-1029), in terms of the JSON values alone.
use codex_local_qwen27b.Base.{
  any-get_elem?, ℕ, ◌≡◌, Bool, true, false, not, ◌&&◌, ◌||◌, some, Bytes, bytes_eq, codes, arith,
  any, if_cases, all-get_elem?, get_elem?, is_empty,
}
use mathlib.Core.Path.{subst}
use codex_local_qwen27b.Json.{JsonLibrary}
use codex_local_qwen27b.ToolCall.Schema.{
  JsonValues, value_matches_type, value_matches_type_spec, properties_of, required_of,
  additional_forbidden, is_declared, no_properties, member_fits, object_matches_tool_schema,
}

module _ (J : JsonLibrary) (V : JsonValues J) where
  -- What the name of a type asks of a value; any other name asks nothing.
  pub record HasType (value : J.Json) (type : Bytes) : Type 0 where
    pub a_string : type ≡ codes "string" → V.is_string value ≡ true
    pub a_str : type ≡ codes "str" → V.is_string value ≡ true
    pub an_integer : type ≡ codes "integer" → V.is_number_integer value ≡ true
    pub an_int : type ≡ codes "int" → V.is_number_integer value ≡ true
    pub a_number : type ≡ codes "number" → V.is_number value ≡ true
    pub a_float : type ≡ codes "float" → V.is_number value ≡ true
    pub a_boolean : type ≡ codes "boolean" → V.is_boolean value ≡ true
    pub a_bool : type ≡ codes "bool" → V.is_boolean value ≡ true
    pub an_object : type ≡ codes "object" → J.is_object value ≡ true
    pub an_array : type ≡ codes "array" → J.is_array value ≡ true
    pub a_null : type ≡ codes "null" → V.is_null value ≡ true

  -- A `type` in a schema is a name, or a list with a name that the value has as its type; anything else
  -- asks nothing.
  pub record MeetsType (value spec : J.Json) : Type 0 where
    pub by_name : V.is_string spec ≡ true → HasType value (V.get_string spec)
    pub by_list :
        V.is_string spec ≡ false
        → J.is_array spec ≡ true
        → (n : ℕ) × (t : J.Json) × (get_elem? (J.elements spec) n ≡ some t)
          × (V.is_string t ≡ true)
          × HasType value (V.get_string t)

  value_matches_type-HasType :
      (value : J.Json) (type : Bytes)
      → value_matches_type J V value type ≡ true
      → HasType value type
  unfolding value_matches_type bytes_eq
  value_matches_type-HasType value type h =
      let Good = λ (t : Bytes). value_matches_type J V value t ≡ true in
      record {
        a_string = λ e. subst Good e h;
        a_str = λ e. subst Good e h;
        an_integer = λ e. subst Good e h;
        an_int = λ e. subst Good e h;
        a_number = λ e. subst Good e h;
        a_float = λ e. subst Good e h;
        a_boolean = λ e. subst Good e h;
        a_bool = λ e. subst Good e h;
        an_object = λ e. subst Good e h;
        an_array = λ e. subst Good e h;
        a_null = λ e. subst Good e h;
      }

  value_matches_type_spec-MeetsType :
      (value spec : J.Json) → value_matches_type_spec J V value spec ≡ true → MeetsType value spec
  unfolding value_matches_type_spec
  value_matches_type_spec-MeetsType value spec h = record {
    by_name = λ s. value_matches_type-HasType value (V.get_string spec) (ground (arith, h, s));
    by_list = λ s a.
        let (n, t, g, p) =
          any-get_elem? (λ t. V.is_string t && value_matches_type J V value (V.get_string t))
            (J.elements spec) (ground (arith, h, s, a)) in
        (
          n,
          t,
          g,
          ground (arith, p),
          value_matches_type-HasType value (V.get_string t) (ground (arith, p)),
        );
  }

  -- The schema declares a property of this name.
  abbrev pub declares : J.Json → Bytes → Bool
  declares schema key =
      J.contains schema (codes "properties")
      && J.is_object (J.at schema (codes "properties"))
      && J.contains (J.at schema (codes "properties")) key

  abbrev pub property : J.Json → Bytes → J.Json
  property schema key = J.at (J.at schema (codes "properties")) key

  -- A member of the object: a declared one has the type that its property gives, if it gives one; one
  -- that is not declared stands where the schema does not say `additionalProperties: false`.
  pub record MemberObeys (schema : J.Json) (key : Bytes) (value : J.Json) : Type 0 where
    pub typed :
        declares schema key ≡ true
        → J.is_object (property schema key) ≡ true
        → J.contains (property schema key) (codes "type") ≡ true
        → MeetsType value (J.at (property schema key) (codes "type"))
    pub allowed :
        declares schema key ≡ false
        → J.contains schema (codes "additionalProperties") ≡ true
        → V.is_boolean (J.at schema (codes "additionalProperties")) ≡ true
        → V.get_bool (J.at schema (codes "additionalProperties")) ≡ true

  pub record ObeysSchema (schema obj : J.Json) : Type 0 where
    pub own_type :
        J.contains schema (codes "type") ≡ true → MeetsType obj (J.at schema (codes "type"))
    pub required :
        J.contains schema (codes "required") ≡ true
        → J.is_array (J.at schema (codes "required")) ≡ true
        → (n : ℕ) (key : J.Json)
        → get_elem? (J.elements (J.at schema (codes "required"))) n ≡ some key
        → V.is_string key ≡ true
        → J.contains obj (V.get_string key) ≡ true
    pub members :
        (n : ℕ) (key : Bytes) (value : J.Json)
        → get_elem? (V.members obj) n ≡ some (key, value)
        → MemberObeys schema key value
    -- Where nothing is required and properties are declared, the object is empty or has one of them.
    pub related :
        J.contains schema (codes "required") ≡ false
        → J.contains schema (codes "properties") ≡ true
        → J.is_object (J.at schema (codes "properties")) ≡ true
        → is_empty (V.members (J.at schema (codes "properties"))) ≡ false
        → is_empty (V.members obj) ≡ false
        → (n : ℕ) × (m : Bytes × J.Json) × (get_elem? (V.members obj) n ≡ some m)
          × (declares schema m.0 ≡ true)

  member_fits-MemberObeys :
      (schema : J.Json) (key : Bytes) (value : J.Json)
      → member_fits J V schema (properties_of J V schema) (key, value) ≡ true
      → MemberObeys schema key value
  unfolding member_fits properties_of additional_forbidden
  member_fits-MemberObeys schema key value =
      if_cases (λ o. member_fits J V schema o (key, value) ≡ true → MemberObeys schema key value)
        (J.contains schema (codes "properties") && J.is_object (J.at schema (codes "properties")))
        (λ e h. record {
          typed = λ d o t.
              value_matches_type_spec-MeetsType value (J.at (property schema key) (codes "type"))
                (ground (arith, h, e, d, o, t));
          allowed = λ d c b. ground (arith, h, e, d, c, b);
        })
        (λ e h. record {
          typed = λ d o t. absurd (ground (arith, e, d));
          allowed = λ d c b. ground (arith, h, c, b);
        })

  required-contains :
      (obj schema : J.Json)
      → object_matches_tool_schema J V obj (some schema) ≡ true
      → J.contains schema (codes "required") ≡ true
      → J.is_array (J.at schema (codes "required")) ≡ true
      → (n : ℕ) (key : J.Json)
      → get_elem? (J.elements (J.at schema (codes "required"))) n ≡ some key
      → V.is_string key ≡ true
      → J.contains obj (V.get_string key) ≡ true
  unfolding object_matches_tool_schema required_of
  required-contains obj schema h c a n key e s =
      let test = λ (k : J.Json). not (V.is_string k) || J.contains obj (V.get_string k) in
      let k =
        all-get_elem? test (J.elements (J.at schema (codes "required"))) n key
          (ground (arith, h, c, a)) e in
      ground (arith, k, s)

  some_declared :
      (obj schema : J.Json)
      → object_matches_tool_schema J V obj (some schema) ≡ true
      → J.contains schema (codes "required") ≡ false
      → J.contains schema (codes "properties") ≡ true
      → J.is_object (J.at schema (codes "properties")) ≡ true
      → is_empty (V.members (J.at schema (codes "properties"))) ≡ false
      → is_empty (V.members obj) ≡ false
      → (n : ℕ) × (m : Bytes × J.Json) × (get_elem? (V.members obj) n ≡ some m)
        × (declares schema m.0 ≡ true)
  unfolding object_matches_tool_schema required_of properties_of is_declared no_properties any
  some_declared obj schema h r c o p m =
      let (n, x, g, d) =
        any-get_elem? (λ (x : Bytes × J.Json). J.contains (J.at schema (codes "properties")) x.0)
          (V.members obj) (ground (arith, h, r, c, o, p, m)) in
      (n, x, g, ground (arith, d, c, o))

  pub object_matches_tool_schema-ObeysSchema :
      (obj schema : J.Json)
      → object_matches_tool_schema J V obj (some schema) ≡ true
      → ObeysSchema schema obj
  unfolding object_matches_tool_schema
  object_matches_tool_schema-ObeysSchema obj schema h = record {
    own_type = λ t.
        value_matches_type_spec-MeetsType obj (J.at schema (codes "type")) (ground (arith, h, t));
    required = required-contains obj schema h;
    members = λ n key value e. member_fits-MemberObeys schema key value (
        all-get_elem? (member_fits J V schema (properties_of J V schema)) (V.members obj) n
          (key, value) (ground (arith, h)) e);
    related = some_declared obj schema h;
  }
