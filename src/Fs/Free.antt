-- ===== src/Fs/Free.antt =====
-- src/fs.rs: an access that needs no leave does not wait.
use gatefs.Registry.Grants.{prune_lem}
use gatefs.Text.{Bytes}
use gatefs.Metadata.{SystemTime}
use gatefs.StdPath.{PathBuf}
use gatefs.Registry.{SandboxRegistry, is_expired_in, prune_expired_read_write_grants_for_sandbox}
use gatefs.Operation.{ReadWriteEffect, effects}
use gatefs.Sandbox.{Sandbox}
use gatefs.Fs.{
  Access, Asked, Errno, ask_effect, ask_effects, ask_in_sandbox, needs_no_leave, proceed,
}
use gatefs.World.{Outside, World}
use gatefs.Fs.Leave.{
  after_effects, after_pruning, append_events, ask_leave, ask_leave_in, expired_events,
  finish_leave, wait_for_all,
}
use gatefs.Base.{
  All, Bool, List, [], ap, false, inl, inr, list_ord, nat_ord, not, refl, retain, some, true, ◌∙◌,
  ◌∷◌, ◌≡◌, ◌⊎◌,
}
use gatefs.Map

retain-none :
    {A : Type 0} (p : A → Bool) (xs : List A) → All (λ x. p x ≡ false) xs → retain p xs ≡ []
unfolding retain
retain-none p [] h = refl
retain-none p (x ∷ xs) h = rw h.0 (retain-none p xs h.1)

retain-every :
    {A : Type 0} (p : A → Bool) (xs : List A)
    → All (λ x. p x ≡ false) xs
    → retain (λ x. not (p x)) xs ≡ xs
unfolding retain
retain-every p [] h = refl
retain-every p (x ∷ xs) h = rw h.0 (ap (◌∷◌ x) (retain-every p xs h.1))

prune-fresh :
    (sandbox : Bytes) (now : SystemTime) (r : SandboxRegistry)
    → Map.IsMap r.read_write_grants
    → All (λ e. is_expired_in sandbox now e.1 ≡ false) r.read_write_grants
    → prune_expired_read_write_grants_for_sandbox sandbox now r ≡ (r, [])
prune-fresh sandbox now r m fresh =
    prune_lem sandbox now r m
    ∙ ap
        (λ x. (
          record r { read_write_grants = x },
          Map.values (retain (λ e. is_expired_in sandbox now e.1) r.read_write_grants),
        ))
        (retain-every (λ e. is_expired_in sandbox now e.1) r.read_write_grants fresh)
    ∙ ap (λ x. (r, Map.values x))
        (retain-none (λ e. is_expired_in sandbox now e.1) r.read_write_grants fresh)

module _ (o : Outside) (a : Access) (s : Sandbox) (log_path : PathBuf) where
  ask_effect-free :
      (e : ReadWriteEffect) (asked : Asked) (w : World)
      → Map.get a.fs.sandbox_name w.registry.sandboxes ≡ some s
      → needs_no_leave o s a.operation e ≡ true
      → ask_effect o a log_path e asked w ≡ (w, inr asked)
  unfolding ask_effect ask_in_sandbox
  ask_effect-free e asked w found h =
      ap (λ x. ask_in_sandbox o a log_path e x asked w) found ∙ rw h refl

  ask_effects-free :
      (es : List ReadWriteEffect) (asked : Asked) (w : World)
      → Map.get a.fs.sandbox_name w.registry.sandboxes ≡ some s
      → All (λ e. needs_no_leave o s a.operation e ≡ true) es
      → ask_effects o a log_path es asked w ≡ (w, inr asked)
  unfolding ask_effects
  ask_effects-free [] asked w found h = refl
  ask_effects-free (e ∷ es) asked w found h =
      let loop : World × (Errno ⊎ Asked) → World × (Errno ⊎ Asked) = λ x. elim x.1 [
        | inl errno ↦ (x.0, inl errno)
        | inr more ↦ ask_effects o a log_path es more x.0
      ] in
      ap loop (ask_effect-free e asked w found h.0) ∙ ask_effects-free es asked w found h.1

-- An access to a registered sandbox with no effect that needs leave, where the grants stand in
-- the order of their ids and none of the sandbox's has expired, changes nothing, files no
-- request, waits for nothing and proceeds.
pub ask_leave-free :
    (o : Outside) (a : Access) (s : Sandbox) (w : World)
    → Map.get a.fs.sandbox_name w.registry.sandboxes ≡ some s
    → Map.IsMap w.registry.read_write_grants
    → All (λ e. is_expired_in a.fs.sandbox_name a.now e.1 ≡ false) w.registry.read_write_grants
    → All (λ e. needs_no_leave o s a.operation e ≡ true) (effects a.operation)
    → (ask_leave o a w ≡ (w, inr [])) × (finish_leave [] w ≡ some (w, proceed))
unfolding ask_leave ask_leave_in after_pruning after_effects expired_events append_events
    finish_leave wait_for_all
ask_leave-free o a s w found m fresh free = (
  ap (λ x. ask_leave_in o a x w) found
      ∙ ap (after_pruning o a s.log_path w) (prune-fresh a.fs.sandbox_name a.now w.registry m fresh)
      ∙ ap (after_effects o s.log_path []) (
          ask_effects-free o a s s.log_path (effects a.operation)
            (record { waits = []; consumed_events = [] }) w found free),
  refl,
)
