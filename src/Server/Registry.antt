-- ===== src/Server/Registry.antt =====
-- The registry of src/project_knowledge_mcp/mcp_server.py.
use gitlab_knowledege.Common.{
  ◌≡◌, refl, sym, ap, ◌∙◌, Bool, true, false, Option, none, some, List, [], ◌∷◌, String, codes,
  eq_text_sound, eq_text_sym, arith, if◌then◌else◌, inl, inr, Bool-cases,
}
use gitlab_knowledege.Exec.{returned, final, ◌>>=◌}
use gitlab_knowledege.Conflicts.{Interpreter}
use gitlab_knowledege.Jobs.{Wiring, World}
use gitlab_knowledege.Server.{
  Sdk, Tool, Handler, McpServer, same_name, look_up, put, is_found, has_tool, by_name,
  built_in_tools, register_tool,
}
use gitlab_knowledege.Server.Handlers.{registrations, register_built_in_tools}

-- The same names, in the same order.
abbrev pub SameNames : {A B : Type 0} → List (String × A) → List (String × B) → Type 0
SameNames [] [] = Unit {0}
SameNames [] (y ∷ ys) = ⊥
SameNames (x ∷ xs) [] = ⊥
SameNames (x ∷ xs) (y ∷ ys) = (x.0 ≡ y.0) × SameNames xs ys

abbrev pub or_else : {A : Type 0} → Option A → Option A → Option A
or_else none b = b
or_else (some a) b = some a

put-SameNames :
    {A B : Type 0} (xs : List (String × A)) (ys : List (String × B)) (name : String) (a : A) (b : B)
    → SameNames xs ys
    → SameNames (put xs name a) (put ys name b)
unfolding put
put-SameNames [] [] name a b h = (refl, tt)
put-SameNames [] (y ∷ ys) name a b h = absurd h
put-SameNames (x ∷ xs) [] name a b h = absurd h
put-SameNames ((n, x) ∷ xs) ((m, y) ∷ ys) name a b (h, hs) = elim (Bool-cases (same_name m name)) [
  | inl t ↦ rw (h, t) (refl, hs)
  | inr f ↦ rw (h, f) (refl, put-SameNames xs ys name a b hs)
]

is_found-SameNames :
    {A B : Type 0} (name : String) (xs : List (String × A)) (ys : List (String × B))
    → SameNames xs ys
    → is_found (look_up name xs) ≡ is_found (look_up name ys)
unfolding look_up
is_found-SameNames name [] [] h = refl
is_found-SameNames name [] (y ∷ ys) h = absurd h
is_found-SameNames name (x ∷ xs) [] h = absurd h
is_found-SameNames name ((n, x) ∷ xs) ((m, y) ∷ ys) (h, hs) = elim (Bool-cases (same_name m name)) [
  | inl t ↦ rw (h, t) refl
  | inr f ↦ rw (h, f) (is_found-SameNames name xs ys hs)
]

look_up-same_name :
    {A : Type 0} (a b : String) (d : List (String × A))
    → same_name a b ≡ true
    → look_up a d ≡ look_up b d
unfolding look_up
look_up-same_name a b [] h = refl
look_up-same_name a b ((n, x) ∷ d) h =
    rw (eq_text_sound (codes a) (codes b) h, look_up-same_name a b d h) refl

look_up-put :
    {A : Type 0} (name n : String) (a : A) (d : List (String × A))
    → look_up name (put d n a) ≡ (if same_name n name then some a else look_up name d)
unfolding look_up put
look_up-put name n a [] = refl
look_up-put name n a ((m, x) ∷ d) = elim (Bool-cases (same_name m n)) [
  | inl t ↦ rw (t, eq_text_sound (codes m) (codes n) t) (ground arith)
  | inr f ↦
      rw (f, look_up-put name n a d)
        (elim (Bool-cases (same_name m name)) [
          | inl t ↦
              let other : same_name n name ≡ false =
                eq_text_sym (codes n) (codes name)
                ∙ (rw (eq_text_sound (codes m) (codes name) t) at f) in
              rw (t, other) refl
          | inr g ↦ rw g refl
        ])
]

module _ {A : Type 0} where
  or_else-none : (o : Option A) → o ≡ or_else o none
  or_else-none none = refl
  or_else-none (some a) = refl

  or_else_found : (o b : Option A) → is_found o ≡ true → o ≡ or_else o b
  or_else_found none b h = cc
  or_else_found (some a) b h = refl

  or_else_absent : (o b : Option A) → is_found o ≡ false → b ≡ or_else o b
  or_else_absent none b h = refl
  or_else_absent (some a) b h = cc

  or_else_if :
      (o : Option A) (b : Bool) (a : A) (rest : Option A)
      → or_else (or_else o (if b then some a else none)) rest
        ≡ or_else o (if b then some a else rest)
  or_else_if none true a rest = refl
  or_else_if none false a rest = refl
  or_else_if (some x) b a rest = refl

module _ {W J : Type 0} where
  abbrev pub IsInStep : McpServer W J → Type 0
  IsInStep server = SameNames server.tools server.tool_handlers

  -- The calls one after the other, those that raise included.
  abbrev pub register_each : List (Tool × Handler W J) → McpServer W J → McpServer W J
  register_each [] server = server
  register_each ((tool, handler) ∷ calls) server =
      register_each calls (final (register_tool tool handler server))

  -- The handler of the first call with a tool of that name.
  abbrev pub first_handler : String → List (Tool × Handler W J) → Option (Handler W J)
  first_handler name [] = none
  first_handler name ((tool, handler) ∷ calls) =
      let rest = first_handler name calls in if same_name tool.name name then some handler else rest

  record IsRegistered (tool : Tool) (handler : Handler W J) (a b : McpServer W J) : Type 0 where
    in_step : IsInStep b
    found :
        (name : String)
        → look_up name b.tool_handlers
          ≡ or_else
              (look_up name a.tool_handlers)
              (if same_name tool.name name then some handler else none)

  is_found_as :
      (tool : Tool) (server : McpServer W J) (name : String) (b : Bool)
      → IsInStep server
      → has_tool server.tools tool.name ≡ b
      → same_name tool.name name ≡ true
      → is_found (look_up name server.tool_handlers) ≡ b
  is_found_as tool server name b step has same =
      ap is_found (sym (look_up-same_name tool.name name server.tool_handlers same))
      ∙ sym (is_found-SameNames tool.name server.tools server.tool_handlers step)
      ∙ has

  register_tool-IsRegistered :
      (tool : Tool) (handler : Handler W J) (server : McpServer W J)
      → IsInStep server
      → IsRegistered tool handler server (final (register_tool tool handler server))
  unfolding register_tool
  register_tool-IsRegistered tool handler server step =
      elim (Bool-cases (has_tool server.tools tool.name)) [
        | inl e ↦ rw e (record {
          in_step = step;
          found = λ name. elim (Bool-cases (same_name tool.name name)) [
            | inl t ↦ rw t (or_else_found _ _ (is_found_as tool server name true step e t))
            | inr f ↦ rw f (or_else-none _)
          ];
        })
        | inr e ↦ rw e (record {
          in_step = put-SameNames server.tools server.tool_handlers tool.name tool handler step;
          found = λ name.
              look_up-put name tool.name handler server.tool_handlers
              ∙ elim (Bool-cases (same_name tool.name name)) [
                | inl t ↦ rw t (or_else_absent _ _ (is_found_as tool server name false step e t))
                | inr f ↦ rw f (or_else-none _)
              ];
        })
      ]

  -- If the two dicts of a server have the same names in the same order, then after any sequence
  -- of calls of register_tool, accepted or refused, they have again, and every name finds the
  -- handler that it found before, or else that of the first call with a tool of that name, or
  -- none.
  pub register_each-IsInStep :
      (calls : List (Tool × Handler W J)) (server : McpServer W J)
      → IsInStep server
      → IsInStep (register_each calls server)
        × ((name : String)
            → look_up name (register_each calls server).tool_handlers
              ≡ or_else (look_up name server.tool_handlers) (first_handler name calls))
  register_each-IsInStep [] server step = (step, λ name. or_else-none _)
  register_each-IsInStep ((tool, handler) ∷ calls) server step =
      let one = register_tool-IsRegistered tool handler server step in
      let (later, found) =
        register_each-IsInStep calls (final (register_tool tool handler server)) one.in_step in
      (
        later,
        λ name.
            found name
            ∙ rw (one.found name) (
                or_else_if (look_up name server.tool_handlers) (same_name tool.name name) handler
                  (first_handler name calls)),
      )

module _ {E J : Type 0} (sdk : Sdk J) (py : Interpreter) (k : Wiring E) where
  abbrev pub empty_server : McpServer (World E) J
  empty_server = record { tools = []; tool_handlers = [] }

  abbrev pub wired_server : McpServer (World E) J
  wired_server = record { tools = by_name built_in_tools; tool_handlers = registrations sdk py k }

  pub wired : register_built_in_tools sdk py k empty_server ≡ returned tt wired_server
  unfolding register_built_in_tools ◌>>=◌ look_up register_tool put
  wired = refl
