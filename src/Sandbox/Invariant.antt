-- ===== src/Sandbox/Invariant.antt =====
-- The overlay's numbers: every operation keeps them below the next one, in the order of the lists.
-- (src/state.rs)
use gatefs.Path.{SandboxPath, sandbox_path_ord}
use gatefs.Text.{Bytes}
use gatefs.Path.Normal.{IsNormal}
use gatefs.Sandbox.{
  MountLayer, Sandbox, add_hide, add_layer, new_sandbox, next_overlay_order, remove_layer, u64_mod,
}
use gatefs.StdPath.{PathBuf}
use gatefs.Base.{
  All, All-append, All-imp, All-remove_last, Bool, List, [], any, arith, if_elim, max, refl,
  remove_last, ℕ, ◌%◌, ◌++◌, ◌+◌, ◌<◌, ◌==◌, ◌∷◌, ◌≡◌,
}

abbrev pub Rising : List MountLayer → Type 0
Rising [] = Unit
Rising (l ∷ ls) = All (λ k. l.id < k.id) ls × Rising ls

-- The two counters agree; every number is below them; layers stand in the order of their numbers,
-- at paths in normal form; metadata belongs to numbers already given.
pub record IsWell (s : Sandbox) : Type 0 where
  pub same : s.next_layer_id ≡ s.next_hide_id
  pub layers_below : All (λ l. l.id < s.next_layer_id) s.layers
  pub hides_below : All (λ h. h.id < s.next_layer_id) s.hides
  pub layers_rise : Rising s.layers
  pub layers_normal : All (λ l. IsNormal l.on_fs.inner) s.layers
  pub metadata_below : All (λ e. e.0.layer_id < s.next_layer_id) s.metadata

Rising-snoc :
    (ls : List MountLayer) (l : MountLayer)
    → Rising ls
    → All (λ k. k.id < l.id) ls
    → Rising (ls ++ l ∷ [])
Rising-snoc [] l r b = (tt, tt)
Rising-snoc (k ∷ ks) l r b = (All-append _ ks (l ∷ []) r.0 (b.0, tt), Rising-snoc ks l r.1 b.1)

Rising-remove_last :
    (p : MountLayer → Bool) (ls : List MountLayer) → Rising ls → Rising (remove_last p ls)
unfolding remove_last
Rising-remove_last p [] r = tt
Rising-remove_last p (l ∷ ls) r =
    ground (arith, Rising-remove_last p ls r.1, All-remove_last (λ k. l.id < k.id) p ls r.0)

pub new_sandbox-IsWell : (name : Bytes) (log_path : PathBuf) → IsWell (new_sandbox name log_path)
new_sandbox-IsWell name log_path = record {
  same = refl;
  layers_below = tt;
  hides_below = tt;
  layers_rise = tt;
  layers_normal = tt;
  metadata_below = tt;
}

-- While the counter has room, a mount keeps the invariant.
pub add_layer-IsWell :
    (s : Sandbox) (local : PathBuf) (on_fs : SandboxPath)
    → s.next_layer_id + 1 < u64_mod
    → IsNormal on_fs.inner
    → IsWell s
    → IsWell (add_layer local on_fs s).0
unfolding add_layer next_overlay_order
add_layer-IsWell s local on_fs room n w = record {
  same = refl;
  layers_below = All-append _ s.layers _ (All-imp later s.layers w.layers_below) (given, tt);
  hides_below = All-imp (λ h. later_id h.id) s.hides w.hides_below;
  layers_rise =
      Rising-snoc s.layers _ w.layers_rise (All-imp (λ l h. first l.id h) s.layers w.layers_below);
  layers_normal = All-append _ s.layers _ w.layers_normal (n, tt);
  metadata_below = All-imp (λ e. later_id e.0.layer_id) s.metadata w.metadata_below;
}
  where
    same : s.next_layer_id ≡ s.next_hide_id
    same = w.same

    later_id :
        (i : ℕ) → i < s.next_layer_id → i < (max s.next_layer_id s.next_hide_id + 1) % u64_mod
    later_id i h = omega (arith, same)

    later :
        (l : MountLayer)
        → l.id < s.next_layer_id
        → l.id < (max s.next_layer_id s.next_hide_id + 1) % u64_mod
    later l = later_id l.id

    given : max s.next_layer_id s.next_hide_id < (max s.next_layer_id s.next_hide_id + 1) % u64_mod
    given = omega (arith, same)

    first : (i : ℕ) → i < s.next_layer_id → i < max s.next_layer_id s.next_hide_id
    first i h = omega arith

-- While the counter has room, a hide rule keeps the invariant.
pub add_hide-IsWell :
    (s : Sandbox) (path : SandboxPath)
    → s.next_layer_id + 1 < u64_mod
    → IsWell s
    → IsWell (add_hide path s).0
unfolding add_hide
add_hide-IsWell s path room w = record {
  same = refl;
  layers_below = All-imp (λ l. later l.id) s.layers w.layers_below;
  hides_below =
      All-append _ s.hides _ (All-imp (λ h. later h.id) s.hides w.hides_below)
        (omega (arith, w.same), tt);
  layers_rise = w.layers_rise;
  layers_normal = w.layers_normal;
  metadata_below = All-imp (λ e. later e.0.layer_id) s.metadata w.metadata_below;
}
  where
    later : (i : ℕ) → i < s.next_layer_id → i < (max s.next_layer_id s.next_hide_id + 1) % u64_mod
    later i h = omega (arith, w.same)

-- An unmount keeps the invariant.
pub remove_layer-IsWell :
    (s : Sandbox) (on_fs : SandboxPath) → IsWell s → IsWell (remove_layer on_fs s).0
unfolding remove_layer
remove_layer-IsWell s on_fs w =
    if_elim (λ (r : Sandbox × Bool). IsWell r.0) (any (λ l. l.on_fs == on_fs) s.layers)
      (record {
        same = w.same;
        layers_below = All-remove_last _ _ s.layers w.layers_below;
        hides_below = w.hides_below;
        layers_rise = Rising-remove_last _ s.layers w.layers_rise;
        layers_normal = All-remove_last _ _ s.layers w.layers_normal;
        metadata_below = w.metadata_below;
      })
      w
