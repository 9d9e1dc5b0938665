-- ===== src/Scope.antt =====
-- src/dbsc/scope.py: one rule of a session's `scope_specification`.
use dbsc_python.Base.{Bool, true, false, ◌||◌, Option, none, some, if◌then◌else◌}
use dbsc_python.Base.Text.{Text, codes, text_eq}
use dbsc_python.Exceptions.{Result, ok, error, value_error, ◌>>=◌, ◌>>◌}
use dbsc_python.Validate.{require}
use dbsc_python.Validate.Patterns.{is_path, is_host_pattern}
use dbsc_python.Json.{Json, Fields, str, obj, end, field}

pub data ScopeRuleType : Type 0 where
  include exclude : ScopeRuleType

pub record ScopeRule : Type 0 where
  pub kind : ScopeRuleType
  pub domain : Option Text
  pub path : Option Text

unfoldable pub type_value : ScopeRuleType → Text
type_value include = codes "include"
type_value exclude = codes "exclude"

-- An absent member is left out.
unfoldable pub optional : Text → Option Text → Fields → Fields
optional name none rest = rest
optional name (some v) rest = field name (str v) rest

unfoldable pub to_dict : ScopeRule → Json
unfolding optional type_value
to_dict rule = obj (
    field (codes "type") (str (type_value rule.kind))
      (optional (codes "domain") rule.domain (optional (codes "path") rule.path end)))

-- `ScopeRuleType(self.type)`
unfoldable pub rule_type : Text → Result ScopeRuleType
unfolding codes text_eq
rule_type kind =
    if text_eq kind (codes "include")
    then ok include
    else if text_eq kind (codes "exclude")
    then ok exclude
    else error value_error (codes "DBSC: scope rule type must be \"include\" or \"exclude\".")

abbrev pub is_some : Option Text → Bool
is_some none = false
is_some (some s) = true

abbrev pub absent_or : (Text → Bool) → Option Text → Bool
absent_or p none = true
absent_or p (some s) = p s

-- The constructor: `__post_init__` of `ScopeRule`.
unfoldable pub scope_rule : Text → Option Text → Option Text → Result ScopeRule
unfolding rule_type require is_path is_host_pattern
scope_rule kind domain path = do
  type ← rule_type kind
  require (is_some domain || is_some path) (codes "a scope rule needs a domain, a path, or both.")
  require (absent_or is_path path)
      (codes "a scope rule path must be an absolute URL path (no '//' prefix).")
  require (absent_or is_host_pattern domain)
      (codes "a scope rule domain must be a host pattern (no scheme or path).")
  ok (record { kind = type; domain = domain; path = path })

-- `ScopeRule.include` and `ScopeRule.exclude`, whose arguments are the path and the domain.
unfoldable pub include_rule : Option Text → Option Text → Result ScopeRule
unfolding scope_rule
include_rule path domain = scope_rule (codes "include") domain path

unfoldable pub exclude_rule : Option Text → Option Text → Result ScopeRule
unfolding scope_rule
exclude_rule path domain = scope_rule (codes "exclude") domain path
