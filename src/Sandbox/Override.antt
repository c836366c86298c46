-- ===== src/Sandbox/Override.antt =====
-- What is read of the metadata of a path after an operation, and after a mount. (src/state.rs)
use gatefs.Sandbox.Mount.{resolve_overlay-cong}
use gatefs.Sort.{max_by_key}
use gatefs.Overlay.{collapse_latest, collapse_latest-max}
use gatefs.Sandbox.Objects.{
  apply_metadata_override_to_object, entry_effect, old_override, override_of_key,
}
use gatefs.Metadata.{
  MetadataOperation, MetadataOverride, metadata_path, no_override, write_override,
}
use gatefs.Error.{ok}
use gatefs.Base.{
  Bool, Option, [], any, ap, false, if◌then◌else◌, list_ord, map, nat_eq, nat_ord, none, refl, some,
  true, unwrap_or, ◌==◌, ◌∙◌, ◌∷◌, ◌≡◌,
}
use gatefs.StdPath.{component_ord}
use gatefs.Sandbox.{MetadataEntry, MetadataObjectKey, Sandbox, object_key_ord, resolve_overlay}
use gatefs.Path.{SandboxPath, sandbox_path_ord}
use gatefs.Map

abbrev found_override : Option MetadataEntry → Option MetadataOverride
found_override none = none
found_override (some e) = some e.overrides

collapse_found :
    (key : MetadataObjectKey) (o : Option MetadataEntry)
    → collapse_latest (map entry_effect (Map.found key o)) ≡ found_override o
collapse_found key none = collapse_latest-max [] ∙ unfold max_by_key in refl
collapse_found key (some e) =
    collapse_latest-max (entry_effect (key, e) ∷ []) ∙ unfold max_by_key in refl

-- Collapsing the entries of one key reads that key's entry.
override_of_key-get :
    (s : Sandbox) (key : MetadataObjectKey)
    → Map.IsMap s.metadata
    → override_of_key s key ≡ found_override (Map.get key s.metadata)
unfolding override_of_key
override_of_key-get s key m =
    ap (λ es. collapse_latest (map entry_effect es)) (Map.retain-found key s.metadata m)
    ∙ collapse_found key (Map.get key s.metadata)

old_override-found :
    (o : Option MetadataEntry) → unwrap_or (found_override o) no_override ≡ old_override o
old_override-found none = refl
old_override-found (some e) = refl

found_override-if :
    (b : Bool) (e : MetadataEntry) (o : Option MetadataEntry)
    → found_override (if b then some e else o) ≡ (if b then some e.overrides else found_override o)
found_override-if true e o = refl
found_override-if false e o = refl

-- Where the metadata stand in the order of their keys, an operation on an object whose layer is
-- mounted succeeds: it writes its fields over the object's override, leaves every other object's,
-- keeps the order, and changes no resolution.
pub apply-override_of_key :
    (s : Sandbox) (key other : MetadataObjectKey) (path : SandboxPath) (op : MetadataOperation)
    → Map.IsMap s.metadata
    → any (λ l. nat_eq l.id key.layer_id) s.layers ≡ true
    → (s' : Sandbox) × (apply_metadata_override_to_object key path op s ≡ ok s')
      × Map.IsMap s'.metadata
      × (override_of_key s' other ≡ (
          if key == other
          then some (write_override op (unwrap_or (override_of_key s key) no_override))
          else override_of_key s other))
      × ((p : SandboxPath) → resolve_overlay s' p ≡ resolve_overlay s p)
unfolding apply_metadata_override_to_object
apply-override_of_key s key other path op m h =
    let entry : MetadataEntry = record {
      sandbox_path = metadata_path op;
      overrides = write_override op (old_override (Map.get key s.metadata));
    } in
    let s' : Sandbox = record s { metadata = Map.insert key entry s.metadata } in
    let written = Map.insert-IsMap key entry s.metadata m in
    (
      s',
      rw h,
      written,
      override_of_key-get s' other written
          ∙ ap found_override (Map.get-insert key other entry s.metadata)
          ∙ rw
              (
                override_of_key-get s key m,
                override_of_key-get s other m,
                old_override-found (Map.get key s.metadata),
              )
              (found_override-if (key == other) entry (Map.get other s.metadata)),
      λ p. resolve_overlay-cong s' s p refl refl,
    )
