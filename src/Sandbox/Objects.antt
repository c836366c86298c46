-- ===== src/Sandbox/Objects.antt =====
-- src/state.rs: the children of a directory, and the metadata objects that paths stand for.
use gatefs.Text.{Bytes, bytes, to_string_lossy}
use gatefs.Overlay.{OverlayEffect, collapse_latest, value}
use gatefs.Metadata.{
  MetadataOperation, MetadataOverride, is_empty_override, metadata_path, no_override,
  write_override,
}
use gatefs.Base.{
  Bool, List, Option, [], any, false, find, if◌then◌else◌, list_ord, map, nat_eq, nat_ord, none,
  not, retain, some, true, ℕ, ◌&&◌, ◌++◌, ◌==◌, ◌||◌, ◌∷◌,
}
use gatefs.StdPath.{PathBuf, component_ord, component_text, components}
use gatefs.Sandbox.{
  MetadataEntry, MetadataObjectKey, MountLayer, ResolvedPath, Sandbox, covers, is_hidden,
  is_virtual_dir, lies_below, object_key_ord, real, resolve, virtual_dir,
}
use gatefs.Path.{SandboxPath, as_str, join, sandbox_path_ord, strip_prefix}
use gatefs.Error.{Result, err, message, ok, ◌>>=◌}
use gatefs.Map

-- What the host's file system answers: `Path::is_dir`, and `read_dir` with its names as texts.
pub record Host : Type 0 where
  pub is_dir : PathBuf → Bool
  pub read_dir : PathBuf → Result (List Bytes)

abbrev Children : Type 0
Children = List (Bytes × ResolvedPath)

-- The body of the loop over the layers: a child that leads to the layer.
unfoldable layer_child : Sandbox → SandboxPath → MountLayer → Children → Result Children
unfolding to_string_lossy
layer_child s dir l children = do
  rest ← strip_prefix l.on_fs dir
  (elim rest [
    | [] ↦ ok children
    | first ∷ _ ↦ do
      let name = to_string_lossy (component_text first)
      child ← join dir (components name)
      ok (if is_hidden s child then children else Map.insert name (virtual_dir child) children)
  ])

unfoldable layer_children : Sandbox → SandboxPath → List MountLayer → Children → Result Children
unfolding layer_child
layer_children s dir [] children = ok children
layer_children s dir (l ∷ ls) children = do
  next ← (if lies_below dir l then layer_child s dir l children else ok children)
  layer_children s dir ls next

-- The loop over the host's entries.
unfoldable host_children : Sandbox → SandboxPath → List Bytes → Children → Result Children
unfolding to_string_lossy
host_children s dir [] children = ok children
host_children s dir (file_name ∷ names) children = do
  let name = to_string_lossy file_name
  child ← join dir (components name)
  host_children s dir names (
      if is_hidden s child
      then children
      else elim (resolve s child) [ none ↦ children | some r ↦ Map.insert name r children ])

-- The end of `children`: the host's entries of a real directory, or the check that the directory
-- exists at all.
unfoldable listed_children :
    Host → Sandbox → SandboxPath → Children → Option ResolvedPath → Result Children
unfolding host_children
listed_children host s dir children (some (real local _ _)) =
    let listed = λ (names : List Bytes). host_children s dir names children in
    if host.is_dir local then host.read_dir local >>= listed else ok children
listed_children host s dir children other =
    if not (any (λ l. l.on_fs == dir || covers dir l) s.layers) && not (is_virtual_dir s dir)
    then err (message (as_str dir ++ bytes " does not exist"))
    else ok children

unfoldable children_of : Host → Sandbox → SandboxPath → Result Children
unfolding layer_children listed_children
children_of host s dir =
    if is_hidden s dir
    then err (message (as_str dir ++ bytes " is hidden"))
    else (layer_children s dir s.layers []
        >>= (λ children. listed_children host s dir children (resolve s dir)))

unfoldable object_in_layer : SandboxPath → ℕ → Option MountLayer → Option MetadataObjectKey
object_in_layer path id none = none
object_in_layer path id (some l) = elim (strip_prefix path l.on_fs) [
  | err e ↦ none
  | ok relative_path ↦ some (record { layer_id = id; relative_path = relative_path })
]

unfoldable object_of : Sandbox → SandboxPath → Option ResolvedPath → Option MetadataObjectKey
unfolding object_in_layer
object_of s path none = none
object_of s path (some (real _ layer_id _)) =
    object_in_layer path layer_id (find (λ l. nat_eq l.id layer_id) s.layers)
object_of s path (some (virtual_dir _)) = none

unfoldable pub metadata_object_key : Sandbox → SandboxPath → Option MetadataObjectKey
unfolding object_of
metadata_object_key s path = object_of s path (resolve s path)

unfoldable pub path_is_directory : Host → Sandbox → SandboxPath → Bool
path_is_directory host s path = elim (resolve s path) [
  | none ↦ false
  | some (virtual_dir _) ↦ true
  | some (real local _ _) ↦ host.is_dir local
]

abbrev pub entry_effect : MetadataObjectKey × MetadataEntry → ℕ × OverlayEffect MetadataOverride
entry_effect e = (e.0.layer_id, value e.1.overrides)

unfoldable pub override_of_key : Sandbox → MetadataObjectKey → Option MetadataOverride
override_of_key s key = collapse_latest (map entry_effect (retain (λ e. e.0 == key) s.metadata))

unfoldable pub metadata_override_for_path : Sandbox → SandboxPath → Option MetadataOverride
unfolding override_of_key
metadata_override_for_path s path = elim (metadata_object_key s path) [
  | none ↦ none
  | some key ↦ override_of_key s key
]

-- `metadata.entry(key).or_insert_with(…)`: the override before the operation.
abbrev pub old_override : Option MetadataEntry → MetadataOverride
old_override none = no_override
old_override (some e) = e.overrides

unfoldable pub apply_metadata_override_to_object :
    MetadataObjectKey → SandboxPath → MetadataOperation → Sandbox → Result Sandbox
apply_metadata_override_to_object key path op s =
    if any (λ l. nat_eq l.id key.layer_id) s.layers
    then ok (record s {
      metadata =
          Map.insert key
            (record {
              sandbox_path = metadata_path op;
              overrides = write_override op (old_override (Map.get key s.metadata));
            })
            s.metadata;
    })
    else err (message (bytes "metadata layer not found for path: " ++ as_str path))

unfoldable apply_metadata_override : MetadataOperation → Sandbox → Result Sandbox
unfolding apply_metadata_override_to_object
apply_metadata_override op s = elim (metadata_object_key s (metadata_path op)) [
  | none ↦ err (message (bytes "path not found or not real: " ++ as_str (metadata_path op)))
  | some key ↦ apply_metadata_override_to_object key (metadata_path op) op s
]

abbrev is_key : MetadataObjectKey → Option MetadataObjectKey → Bool
is_key key none = false
is_key key (some k) = k == key

-- An override is shown where it says something and its path still stands for its object.
unfoldable pub metadata_differences : Sandbox → List SandboxPath
metadata_differences s =
    map (λ e. e.1.sandbox_path)
      (retain
        (λ e.
          not (is_empty_override e.1.overrides)
          && is_key e.0 (metadata_object_key s e.1.sandbox_path))
        s.metadata)
