-- ===== src/Security/Scopes/Isolation.antt =====
-- Which requests are served from the canonical database.
use full_shelf.Prelude.{String, true, false, ◌≡◌, concat, ◌&&◌, not, ◌==◌, [], ◌∷◌}
use Prim.Native.String.{◌++◌}
use full_shelf.Security.Scopes.{ScopeLibrary, Resolver, none_of}

module _ (x : ScopeLibrary) where
  -- The name of one operating day of a tenant.
  abbrev pub IsDayOf : String → String → Type 0
  IsDayOf tenant requested =
      (day : String) × (concat (tenant ∷ "-" ∷ []) ++ day ≡ requested)
      × (x.is_compact_day day ≡ true)

  -- What a resolver that was built guarantees of its databases.
  IsIsolated : Resolver → Type 0
  IsIsolated r =
      (r.audit_database_id == r.canonical_database_id
        && not (none_of r.audit_tenant_ids && none_of r.audit_tenant_prefixes))
      ≡ false
