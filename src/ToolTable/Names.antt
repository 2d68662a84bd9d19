-- ===== src/ToolTable/Names.antt =====
-- The names that a request allows, and the namespaces that they come from.
use codex_local_qwen27b.Base.{
  ◌≡◌, refl, ◌≢◌, inl, inr, Bool, true, false, ◌&&◌, ◌||◌, List, [], ◌∷◌, ◌++◌, arith, Bytes,
  if◌then◌else◌, is_empty, any, Bool-cases,
}
use codex_local_qwen27b.Json.{JsonLibrary}
use codex_local_qwen27b.ToolTable.{
  has_name, is_namespace, sub_tools, allows, tool_allowed, namespace_in, find_tool_namespace,
}

any-append {ℓ} :
    {A : Type ℓ} (p : A → Bool) (xs ys : List A) → any p (xs ++ ys) ≡ (any p xs || any p ys)
unfolding any
any-append p [] ys = refl
any-append p (x ∷ xs) ys = ground (arith, any-append p xs ys)

module _ (J : JsonLibrary) where
  -- Every declaration that may be called: the tools, each followed by the members of its namespace.
  pub callable : List J.Json → List J.Json
  callable [] = []
  callable (t ∷ ts) = t ∷ ((if is_namespace J t then sub_tools J t else []) ++ callable ts)

  allows-any :
      (name : Bytes) (t : J.Json)
      → (is_namespace J t && any (has_name J name) (sub_tools J t))
        ≡ any (has_name J name) (if is_namespace J t then sub_tools J t else [])
  unfolding any
  allows-any name t = elim (Bool-cases (is_namespace J t)) [ inl e ↦ rw e | inr e ↦ rw e ]

  allowed-callable :
      (name : Bytes) (ts : List J.Json)
      → any (allows J name) ts ≡ any (has_name J name) (callable ts)
  unfolding any callable allows
  allowed-callable name [] = refl
  allowed-callable name (t ∷ ts) = ground (
    arith,
    allowed-callable name ts,
    allows-any name t,
    any-append (has_name J name) (if is_namespace J t then sub_tools J t else []) (callable ts),
  )

  -- Where the request declares tools, a name is allowed if and only if a tool has it, or a member
  -- of a namespace does.
  pub tool_allowed-callable :
      (tools : J.Json) (name : Bytes)
      → J.is_array tools ≡ true
      → is_empty (J.elements tools) ≡ false
      → tool_allowed J tools name ≡ any (has_name J name) (callable (J.elements tools))
  unfolding tool_allowed
  tool_allowed-callable tools name a e = rw (a, e) (allowed-callable name (J.elements tools))

  namespace_in-allows :
      (ts : List J.Json) (name : Bytes)
      → namespace_in J ts name ≢ []
      → any (allows J name) ts ≡ true
  unfolding namespace_in any allows
  namespace_in-allows [] name h = absurd (h refl)
  namespace_in-allows (t ∷ ts) name h =
      elim (Bool-cases (is_namespace J t && any (has_name J name) (sub_tools J t))) [
        | inl e ↦ ground arith
        | inr e ↦ ground (arith, namespace_in-allows ts name (rw e at h))
      ]

  -- A name that has a namespace is allowed.
  pub find_tool_namespace-allowed :
      (tools : J.Json) (name : Bytes)
      → find_tool_namespace J tools name ≢ []
      → tool_allowed J tools name ≡ true
  unfolding find_tool_namespace tool_allowed
  find_tool_namespace-allowed tools name h = elim (Bool-cases (J.is_array tools)) [
    | inl a ↦ ground (arith, namespace_in-allows (J.elements tools) name (rw a at h))
    | inr a ↦ rw a
  ]
