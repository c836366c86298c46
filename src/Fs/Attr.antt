-- ===== src/Fs/Attr.antt =====
-- src/fs.rs: the attributes of a path in a mounted view.
use gatefs.Sandbox.Objects.{metadata_override_for_path}
use gatefs.World.{World}
use gatefs.Path.{SandboxPath}
use gatefs.StdPath.{PathBuf}
use gatefs.Fs.{Errno, SandboxFs, enoent}
use gatefs.Attr.{FileAttr, Stat, apply_override, real_attr, stable_ino, virtual_dir_attr}
use gatefs.Sandbox.{ResolvedPath, Sandbox, real, resolve, virtual_dir}
use gatefs.Base.{List, Option, inl, inr, none, some, ℕ, ◌⊎◌, list_ord, nat_ord}
use gatefs.Map

-- What a view knows of its inodes, and what it shares.
pub record View : Type 0 where
  pub inodes : List (ℕ × SandboxPath)
  pub world : World

-- The host's `symlink_metadata`, with the error number of a failure, and the process's own ids.
pub record Kernel : Type 0 where
  pub symlink_metadata : PathBuf → Errno ⊎ Stat
  pub effective_uid : ℕ
  pub effective_gid : ℕ

-- `SandboxFs::remember`.
unfoldable pub remember : SandboxPath → View → View × ℕ
unfolding stable_ino
remember path v =
    (record v { inodes = Map.insert (stable_ino path) path v.inodes }, stable_ino path)

abbrev of_stat : SandboxPath → Errno ⊎ Stat → Errno ⊎ FileAttr
unfolding real_attr
of_stat path (inl e) = inl e
of_stat path (inr s) = inr (real_attr path s)

unfoldable pub resolved_attr : Kernel → SandboxPath → Option ResolvedPath → Errno ⊎ FileAttr
unfolding of_stat virtual_dir_attr
resolved_attr kernel path none = inl enoent
resolved_attr kernel path (some (virtual_dir at)) =
    inr (virtual_dir_attr kernel.effective_uid kernel.effective_gid path)
resolved_attr kernel path (some (real local layer_id at)) =
    of_stat path (kernel.symlink_metadata local)

-- The end of `attr_for_path`: the inode is remembered, and the override is laid over.
unfoldable pub remembered_attr :
    Sandbox → SandboxPath → Errno ⊎ FileAttr → View → View × (Errno ⊎ FileAttr)
unfolding remember apply_override
remembered_attr s path (inl e) v = (v, inl e)
remembered_attr s path (inr attr) v =
    let (v1, number) = remember path v in
    (v1, inr (apply_override (record attr { ino = number }) (metadata_override_for_path s path)))

unfoldable pub attr_found : Kernel → SandboxPath → Option Sandbox → View → View × (Errno ⊎ FileAttr)
unfolding resolved_attr remembered_attr
attr_found kernel path none v = (v, inl enoent)
attr_found kernel path (some s) v =
    remembered_attr s path (resolved_attr kernel path (resolve s path)) v

unfoldable pub attr_for_path : Kernel → SandboxFs → SandboxPath → View → View × (Errno ⊎ FileAttr)
unfolding attr_found
attr_for_path kernel fs path v =
    attr_found kernel path (Map.get fs.sandbox_name v.world.registry.sandboxes) v
