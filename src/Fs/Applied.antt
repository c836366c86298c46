-- ===== src/Fs/Applied.antt =====
-- src/fs.rs: what metadata requests keep, if a change of a sandbox and a new id keep it, and a change
-- that no trusted operation covers.
use gatefs.Sandbox.Objects.{apply_metadata_override_to_object, metadata_object_key}
use gatefs.StdPath.{component_ord}
use gatefs.Session.Board.{append_line-board}
use gatefs.Path.{SandboxPath, sandbox_path_ord}
use gatefs.Fs.Attr.{
  Kernel, View, attr_for_path, attr_found, remember, remembered_attr, resolved_attr,
}
use gatefs.Error.{Result, err, ok}
use gatefs.Attr.{FileAttr}
use gatefs.Fs.{Errno, SandboxFs, enotsup, is_trusted_operation}
use gatefs.World.{Outside, World, append_line}
use gatefs.Text.{Bytes}
use gatefs.Registry.{SandboxRegistry, next_operation_id}
use gatefs.Metadata.{metadata_event_body, metadata_path}
use gatefs.Sandbox.{MetadataObjectKey, Sandbox, resolve}
use gatefs.Pending.{operation_key_ord}
use gatefs.Fs.Change.{
  Begun, Change, applied_now, as_applied, begin_in, begin_metadata_request, begin_read,
  begin_trusted_change, begin_untrusted_change, on_registry, trusted_body, trusts,
}
use gatefs.Base.{
  Bool, Bool-cases, Option, ap, arith, find, if_elim, if◌then◌else◌, inl, inr, is_some, list_ord,
  nat_ord, none, refl, some, subst, sym, true, ◌+◌, ◌<◌, ◌^◌, ◌∙◌, ◌≡◌, ◌⊎◌,
}
use gatefs.Map

-- Whether a request ends with what it began with.
abbrev pub Keeps : (SandboxRegistry → Type 0) → SandboxRegistry → Begun → Type 0
Keeps Holds r begun = Holds r → Holds begun.0.world.registry

module _ (kernel : Kernel) (outside : Outside) where
  remembered_attr-registry :
      (s : Sandbox) (path : SandboxPath) (x : Errno ⊎ FileAttr) (v : View)
      → (remembered_attr s path x v).0.world ≡ v.world
  unfolding remembered_attr remember
  remembered_attr-registry s path (inl e) v = refl
  remembered_attr-registry s path (inr a) v = refl

  pub attr_for_path-world :
      (fs : SandboxFs) (path : SandboxPath) (v : View)
      → (attr_for_path kernel fs path v).0.world ≡ v.world
  unfolding attr_for_path attr_found
  attr_for_path-world fs path v = by_cases (Map.get fs.sandbox_name v.world.registry.sandboxes)
    where
      by_cases : (s : Option Sandbox) → (attr_found kernel path s v).0.world ≡ v.world
      by_cases none = refl
      by_cases (some s) =
          remembered_attr-registry s path (resolved_attr kernel path (resolve s path)) v

  as_applied-view : (x : View × (Errno ⊎ FileAttr)) → (as_applied kernel outside x).0 ≡ x.0
  as_applied-view (v, inl e) = refl
  as_applied-view (v, inr a) = refl

  module _ (Holds : SandboxRegistry → Type 0)
      (stored : (r : SandboxRegistry) (name : Bytes) (s : Sandbox)
        → Holds r
        → Holds (record r { sandboxes = Map.insert name s r.sandboxes }))
      (counted : (r : SandboxRegistry)
        → r.next_operation + 1 < 2 ^ 64
        → Holds r
        → Holds (next_operation_id r).0) where
    pub applied_now-Keeps :
        (c : Change) (x : Result Sandbox) (v : View)
        → Keeps Holds v.world.registry (applied_now kernel outside c x v)
    unfolding applied_now
    applied_now-Keeps c (err e) v w = w
    applied_now-Keeps c (ok s) v w =
        subst (λ (u : World). Holds u.registry)
          (sym (
            ap (λ (u : View). u.world) (as_applied-view (attr_for_path kernel c.fs c.path put))
            ∙ attr_for_path-world c.fs c.path put))
          (stored v.world.registry c.fs.sandbox_name s w)
      where
        put : View
        put =
            on_registry
              (record v.world.registry {
                sandboxes = Map.insert c.fs.sandbox_name s v.world.registry.sandboxes;
              })
              v

    pub begin_trusted_change-Keeps :
        (c : Change) (object : MetadataObjectKey) (s : Sandbox) (v : View)
        → v.world.registry.next_operation + 1 < 2 ^ 64
        → Keeps Holds v.world.registry (begin_trusted_change kernel outside c object s v)
    unfolding begin_trusted_change
    begin_trusted_change-Keeps c object s v room w =
        elim (Bool-cases (is_some (resolve s (metadata_path c.operation)))) [
          | inr b ↦ rw b w
          | inl b ↦ rw b (elim (Bool-cases line.1) [
            | inr n ↦ rw n lined
            | inl n ↦ rw n (
                applied_now-Keeps c (apply_metadata_override_to_object object c.path c.operation s)
                  (record v { world = line.0 }) lined)
          ])
        ]
      where
        numbered : World
        numbered = record v.world { registry = (next_operation_id v.world.registry).0 }

        body : Bytes
        body =
            trusted_body (find (trusts c) (Map.values numbered.registry.trusted))
              (metadata_event_body c.operation)

        line : World × Bool
        line = append_line outside s.log_path v.world.registry.next_operation body numbered

        lined : Holds line.0.registry
        lined =
            subst Holds
              (sym
                (append_line-board outside s.log_path v.world.registry.next_operation body
                  numbered).0)
              (counted v.world.registry room w)

    module _
        (untrusted : (c : Change) (object : MetadataObjectKey) (unchanged : FileAttr) (s : Sandbox)
            (v : View)
          → is_some (Map.get c.fs.sandbox_name v.world.registry.sandboxes) ≡ true
          → v.world.registry.next_operation + 7 < 2 ^ 64
          → Keeps Holds v.world.registry
              (begin_untrusted_change kernel outside c object unchanged s v)) where
      begin_in-Keeps :
          (c : Change) (unchanged : FileAttr) (s : Option Sandbox) (v : View)
          → Map.get c.fs.sandbox_name v.world.registry.sandboxes ≡ s
          → v.world.registry.next_operation + 7 < 2 ^ 64
          → Keeps Holds v.world.registry (begin_in kernel outside c unchanged s v)
      unfolding begin_in
      begin_in-Keeps c unchanged none v there room w = w
      begin_in-Keeps c unchanged (some s) v there room w = by_object (metadata_object_key s c.path)
        where
          by_object :
              (x : Option MetadataObjectKey)
              → Holds
                  (elim x as (λ y. Begun) [
                    | none ↦ (v, inl enotsup)
                    | some object ↦
                        if is_trusted_operation v.world.registry c.fs.sandbox_name c.requester.pid
                          c.requester.uid c.path
                        then begin_trusted_change kernel outside c object s v
                        else begin_untrusted_change kernel outside c object unchanged s v
                  ]).0.world.registry
          by_object none = w
          by_object (some object) =
              if_elim (λ (x : Begun). Holds x.0.world.registry)
                (is_trusted_operation v.world.registry c.fs.sandbox_name c.requester.pid
                  c.requester.uid c.path)
                (begin_trusted_change-Keeps c object s v (omega (arith, room)) w)
                (untrusted c object unchanged s v (ap is_some there) room w)

      begin_read-Keeps :
          (c : Change) (x : View × (Errno ⊎ FileAttr))
          → x.0.world.registry.next_operation + 7 < 2 ^ 64
          → Keeps Holds x.0.world.registry (begin_read kernel outside c x)
      unfolding begin_read
      begin_read-Keeps c (v, inl e) room w = w
      begin_read-Keeps c (v, inr unchanged) room w =
          begin_in-Keeps c unchanged (Map.get c.fs.sandbox_name v.world.registry.sandboxes) v refl
            room w

      pub begin_metadata_request-Keeps :
          (c : Change) (v : View)
          → v.world.registry.next_operation + 7 < 2 ^ 64
          → Keeps Holds v.world.registry (begin_metadata_request kernel outside c v)
      unfolding begin_metadata_request
      begin_metadata_request-Keeps c v room w =
          begin_read-Keeps c (attr_for_path kernel c.fs c.path v)
            (subst (λ (u : World). u.registry.next_operation + 7 < 2 ^ 64)
              (sym (attr_for_path-world c.fs c.path v)) room)
            (subst (λ (u : World). Holds u.registry) (sym (attr_for_path-world c.fs c.path v)) w)
