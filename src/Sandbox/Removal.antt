-- ===== src/Sandbox/Removal.antt =====
-- Which layer an unmount takes out. (src/state.rs)
use gatefs.Path.{SandboxPath, sandbox_path_ord}
use gatefs.Sandbox.{MountLayer, Sandbox, remove_layer}
use gatefs.Sandbox.Invariant.{IsWell, Rising, remove_layer-IsWell}
use gatefs.StdPath.{component_ord}
use gatefs.Base.{
  ==_iff, All, All-append, All-imp, Bool, Bool-cases, List, [], any, any-none, ap, arith, false,
  inl, inr, list_ord, nat_ord, refl, remove_last_split, subst, true, ◌++◌, ◌<◌, ◌==◌, ◌∷◌, ◌≡◌, ◌⊎◌,
}

-- Layers in the order of their numbers: those before a layer have smaller ones.
Rising-below :
    (older newer : List MountLayer) (l : MountLayer)
    → Rising (older ++ l ∷ newer)
    → All (λ k. k.id < l.id) older
Rising-below [] newer l r = tt
Rising-below (k ∷ older) newer l r = (middle older newer l r.0, Rising-below older newer l r.1)
  where
    middle :
        (ks js : List MountLayer) (j : MountLayer)
        → All (λ i. k.id < i.id) (ks ++ j ∷ js)
        → k.id < j.id
    middle [] js j h = h.0
    middle (i ∷ ks) js j h = middle ks js j h.1

-- What an unmount at a path makes of a sandbox.
abbrev pub Unmounts : SandboxPath → Sandbox → Sandbox × Bool → Type 0
Unmounts on_fs s r =
    ((r ≡ (s, false)) × All (λ l. (l.on_fs == on_fs) ≡ false) s.layers)
    ⊎ ((older : List MountLayer) × (l : MountLayer) × (newer : List MountLayer) × (s.layers
          ≡ older ++ l ∷ newer)
        × (l.on_fs ≡ on_fs)
        × All (λ k. (k.on_fs == on_fs) ≡ true → k.id < l.id) (older ++ newer)
        × (r ≡ (record s { layers = older ++ newer }, true)))

-- In a well-formed sandbox an unmount answers false and changes nothing where no layer is mounted at
-- the path. Otherwise it answers true and takes out one layer, the one with the greatest number of
-- those at the path; the other layers keep their order, and all else stays. Either way the sandbox is
-- well-formed afterwards.
pub remove_layer_lem :
    (s : Sandbox) (on_fs : SandboxPath)
    → IsWell s
    → Unmounts on_fs s (remove_layer on_fs s) × IsWell (remove_layer on_fs s).0
unfolding remove_layer
remove_layer_lem s on_fs w = (
  elim (Bool-cases (any at_path s.layers)) [
    | inr b ↦ inl (rw b refl, any-none at_path s.layers b)
    | inl b ↦
        let (older, l, newer, split, here, out, left) = remove_last_split at_path s.layers b in
        inr (
          older,
          l,
          newer,
          split,
          (==_iff l.on_fs on_fs).0 here,
          All-append (λ k. at_path k ≡ true → k.id < l.id) older newer
              (All-imp (λ k h e. h) older
                (Rising-below older newer l (subst Rising split w.layers_rise)))
              (All-imp (λ k h e. ground (arith, h, e)) newer out),
          rw b (ap (λ ls. (record s { layers = ls }, true)) left),
        )
  ],
  remove_layer-IsWell s on_fs w,
)
  where
    at_path : MountLayer → Bool
    at_path l = l.on_fs == on_fs
