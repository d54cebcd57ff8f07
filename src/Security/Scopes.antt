-- ===== src/Security/Scopes.antt =====
-- packages/domain/full_shelf_domain/authority.py: which database a tenant is served from.
pub mod Isolation
use full_shelf.Prelude.{
  ℕ, String, Bool, true, false, ◌&&◌, ◌||◌, not, ◌==◌, Option, none, some, List, [], ◌∷◌, map,
  select, any, contains, concat, ltb, if◌then◌else◌,
}
use full_shelf.Prelude.Errors.{
  Result, ok, err, permission_error, configuration_error, ◌>>=◌, ◌>>◌, guard, raise_if,
}
use Prim.Native.String.{len, slice}
use text.Mathlib.Text.{starts_with}

-- `str.strip`; whether a token is the compact form of a date, by `date.fromisoformat` and
-- `strftime`; and the pattern of a fresh audit tenant.
pub record ScopeLibrary : Type 0 where
  pub strip : String → String
  pub is_compact_day : String → Bool
  pub is_audit_name : String → Bool

pub record AuthorityScope : Type 0 where
  pub tenant_id : String
  pub database_id : String
  pub kind : String

-- `AuthorityScopeResolver`
pub record Resolver : Type 0 where
  pub canonical_tenant_id : String
  pub canonical_database_id : String
  pub audit_database_id : String
  pub audit_tenant_ids : List String
  pub audit_tenant_prefixes : List String

abbrev none_of : List String → Bool
none_of [] = true
none_of (x ∷ xs) = false

module _ (x : ScopeLibrary) where
  -- The stripped entries that are not empty.
  stripped : List String → List String
  stripped ids = select (λ s. not (s == "")) (map x.strip ids)

  check_resolver : Resolver → Result Resolver
  check_resolver r = do
    raise_if (r.canonical_tenant_id == "" || r.canonical_database_id == "")
        (configuration_error "CANONICAL_AUTHORITY_SCOPE_NOT_CONFIGURED")
    raise_if (contains r.canonical_tenant_id r.audit_tenant_ids)
        (configuration_error "AUTHORITY_SCOPE_OVERLAP")
    raise_if
        (not (none_of r.audit_tenant_ids && none_of r.audit_tenant_prefixes)
          && r.audit_database_id == "")
        (configuration_error "AUDIT_DATABASE_NOT_CONFIGURED")
    raise_if
        (r.audit_database_id == r.canonical_database_id
          && not (none_of r.audit_tenant_ids && none_of r.audit_tenant_prefixes))
        (configuration_error "AUDIT_DATABASE_MUST_BE_ISOLATED")
    ok r

  unfoldable pub configured : String → String → String → List String → List String → Resolver
  unfolding stripped
  configured canonical_tenant_id canonical_database_id audit_database_id audit_tenant_ids
        audit_tenant_prefixes =
      record {
        canonical_tenant_id = x.strip canonical_tenant_id;
        canonical_database_id = x.strip canonical_database_id;
        audit_database_id = x.strip audit_database_id;
        audit_tenant_ids = stripped audit_tenant_ids;
        audit_tenant_prefixes = stripped audit_tenant_prefixes;
      }

  -- `__init__`: the resolver, or the error of its configuration.
  unfoldable pub make_resolver :
      String → String → String → List String → List String → Result Resolver
  unfolding configured check_resolver
  make_resolver canonical_tenant_id canonical_database_id audit_database_id audit_tenant_ids
        audit_tenant_prefixes =
      check_resolver (
        configured canonical_tenant_id canonical_database_id audit_database_id audit_tenant_ids
          audit_tenant_prefixes)

  -- A tenant of one operating day: the canonical tenant, a dash and a compact date.
  unfoldable pub is_operating_day : Resolver → String → Bool
  is_operating_day r requested =
      let prefix = concat (r.canonical_tenant_id ∷ "-" ∷ []) in
      starts_with requested prefix
      && x.is_compact_day (slice requested (len prefix) (len requested))

  unfoldable pub is_fresh_audit : Resolver → String → Bool
  is_fresh_audit r requested =
      x.is_audit_name requested
      && any (λ prefix. starts_with requested prefix && ltb (len prefix) (len requested))
          r.audit_tenant_prefixes

  resolve_stripped : Resolver → String → Result AuthorityScope
  unfolding is_operating_day is_fresh_audit
  resolve_stripped r requested =
      if requested == r.canonical_tenant_id
      then ok (record {
        tenant_id = requested;
        database_id = r.canonical_database_id;
        kind = "CANONICAL";
      })
      else if is_operating_day r requested
      then ok (record {
        tenant_id = requested;
        database_id = r.canonical_database_id;
        kind = "CANONICAL_OPERATING_DAY";
      })
      else if contains requested r.audit_tenant_ids
      then ok (record {
        tenant_id = requested;
        database_id = r.audit_database_id;
        kind = "AUDIT_ISOLATED";
      })
      else if is_fresh_audit r requested
      then ok (record {
        tenant_id = requested;
        database_id = r.audit_database_id;
        kind = "AUDIT_ISOLATED_FRESH_OPERATING_DAY";
      })
      else err (permission_error "TENANT_SCOPE_NOT_AUTHORIZED")

  unfoldable pub resolve : Resolver → String → Result AuthorityScope
  unfolding resolve_stripped
  resolve r tenant_id = resolve_stripped r (x.strip tenant_id)
