-- ===== src/Replay/Binding.antt =====
-- tools/replay/session.py: the repair that an approval must name, and the comparison of a request
-- with it.
use full_shelf.Prelude.{ℕ, String, Bool, true, false, ◌&&◌, ◌==◌, none, some, nat_eq, or_else}
use full_shelf.Ledger.Json.{
  Json, Items, Fields, null, bool, num, text, arr, obj, nil, item, end, field, find_field, get,
  get_text,
}
use full_shelf.Replay.Events.{plan_id, fleet_inc}

abbrev count_fields : Fields → ℕ
count_fields end = 0
count_fields (field k v rest) = ℕ.suc (count_fields rest)

same_bool : Bool → Bool → Bool
same_bool true b = b
same_bool false true = false
same_bool false false = true

-- Equality of documents: the order of the keys does not count.
unfoldable mutual
  unfolding count_fields same_bool find_field

  pub json_eq : Json → Json → Bool
  json_eq null null = true
  json_eq (bool a) (bool b) = same_bool a b
  json_eq (num a) (num b) = nat_eq a b
  json_eq (text a) (text b) = a == b
  json_eq (arr xs) (arr ys) = items_eq xs ys
  json_eq (obj f) (obj g) = nat_eq (count_fields f) (count_fields g) && fields_within f g
  json_eq _ _ = false

  pub items_eq : Items → Items → Bool
  items_eq nil nil = true
  items_eq (item x xs) (item y ys) = json_eq x y && items_eq xs ys
  items_eq _ _ = false

  pub fields_within : Fields → Fields → Bool
  fields_within end g = true
  fields_within (field k v rest) g =
      elim (find_field k g) [ none ↦ false | some w ↦ json_eq v w ] && fields_within rest g

repair_action : String → ℕ → String → Json
repair_action order_id cases disposition = obj (
    field "order_id" (text order_id)
      (field "cases" (num cases) (field "disposition" (text disposition) end)))

repair_actions : Json
unfolding repair_action
repair_actions =
    arr (
      item (repair_action "O202" 22 "TRUCK_2")
        (item (repair_action "O203" 20 "PARTNER_PICKUP") nil))

-- `CANONICAL_BINDING`
unfoldable pub canonical_binding : Json
unfolding repair_actions
canonical_binding = obj (
    field "plan_id" (text plan_id) (
      field "incident_id" (text fleet_inc) (
        field "expected_revision" (text "rev07")
          (field "target_revision" (text "rev08") (field "actions" repair_actions end)))))

-- `{field: request.get(field) for field in BINDING_FIELDS}`
unfoldable pub submitted : Json → Json
unfolding get
submitted request = obj (
    field "plan_id" (or_else (get "plan_id" request) null) (
      field "incident_id" (or_else (get "incident_id" request) null) (
        field "expected_revision" (or_else (get "expected_revision" request) null) (
          field "target_revision" (or_else (get "target_revision" request) null)
            (field "actions" (or_else (get "actions" request) null) end)))))

-- `CANONICAL_PLAN_DIFF_HASH`, the digest of the binding, is an argument.
unfoldable pub binding_matches : String → Json → Bool
unfolding submitted canonical_binding json_eq get_text
binding_matches canonical_hash request =
    json_eq canonical_binding (submitted request)
    && json_eq (text canonical_hash) (or_else (get "plan_diff_hash" request) null)
