-- ===== src/Server/Instructions.antt =====
-- The session instructions: `_instructions_json` and what it reads.
use dbsc_python.Base.{false, none, some, List, [], ◌∷◌, ◌++◌}
use dbsc_python.Base.Text.{Text, codes}
use dbsc_python.Json.{Json, Items, Fields, bool, str, arr, obj, nil, cons, end, field}
use dbsc_python.Json.Dumps.{dumps}
use dbsc_python.Scope.{ScopeRule, to_dict}
use dbsc_python.Config.{Config}
use dbsc_python.Request.{RequestContext}

-- `_scope_specification`
unfoldable pub scope_specification : Config → RequestContext → List ScopeRule
scope_specification config ctx = elim ctx.scope_specification [
  | some rules ↦ rules
  | none ↦ config.scope_specification
]

-- `_allowed_refresh_initiators`
unfoldable pub allowed_refresh_initiators : Config → RequestContext → List Text
allowed_refresh_initiators config ctx = elim ctx.allowed_refresh_initiators [
  | some hosts ↦ hosts
  | none ↦ config.allowed_refresh_initiators
]

unfoldable pub rule_items : List ScopeRule → Items
rule_items [] = nil
rule_items (rule ∷ rules) = cons (to_dict rule) (rule_items rules)

unfoldable pub text_items : List Text → Items
text_items [] = nil
text_items (s ∷ rest) = cons (str s) (text_items rest)

-- An empty list leaves its member out.
unfoldable pub scope_member : List ScopeRule → Fields
unfolding rule_items
scope_member [] = end
scope_member (rule ∷ rules) =
    field (codes "scope_specification") (arr (rule_items (rule ∷ rules))) end

unfoldable pub initiators_member : List Text → Fields
unfolding text_items
initiators_member [] = end
initiators_member (host ∷ hosts) =
    field (codes "allowed_refresh_initiators") (arr (text_items (host ∷ hosts))) end

abbrev pub credential : Config → Json
credential config = obj (
    field (codes "type") (str (codes "cookie")) (
      field (codes "name") (str config.cookie_name) (
        field (codes "attributes")
          (str (codes "Path=/; Secure; HttpOnly; SameSite=" ++ config.cookie_same_site)) end)))

unfoldable pub instructions : Config → Text → RequestContext → Json
unfolding scope_specification allowed_refresh_initiators scope_member initiators_member
instructions config session_identifier ctx = obj (
    field (codes "session_identifier") (str session_identifier) (
      field (codes "refresh_url") (str config.refresh_path) (
        field (codes "scope")
          (obj (
            field (codes "origin") (str ctx.origin_host_url) (
              field (codes "include_site") (bool false)
                (scope_member (scope_specification config ctx)))))
          (field (codes "credentials") (arr (cons (credential config) nil))
            (initiators_member (allowed_refresh_initiators config ctx))))))

-- `_instructions_json`
unfoldable pub instructions_json : Config → Text → RequestContext → Text
unfolding instructions
instructions_json config session_identifier ctx = dumps (instructions config session_identifier ctx)
