-- ===== src/Examples/Access.antt =====
-- src/fs.rs: an access on small data.
use gatefs.Grant.{is_expired}
use gatefs.Fs.Free.{ask_leave-free}
use gatefs.Sandbox.{add_layer, is_bypass, is_protected}
use gatefs.Fs.Proceed.{
  IsAnswered, ask_effect-IsAnswered, cancel_unresolved_read_write_effects_lem, is_approval,
  wait_for_all-proceed,
}
use gatefs.Fs.{Asked, ask_effect, needs_no_leave, proceed}
use gatefs.Fs.Leave.{ask_leave, cancel_unresolved_read_write_effects, finish_leave, wait_for_all}
use gatefs.Examples.Data.{box, docs, home, outside, read_access, world}
use gatefs.Policy.{matches_rule, read}
use gatefs.Operation.{ReadWriteEffect, effect, effects, is_xattr_operation}
use gatefs.Map
use gatefs.Base.{
  All, List, [], any, cmp_list, if◌then◌else◌, inr, list_ord, nat_ord, none, refl, some, true, ℕ,
  ◌==◌, ◌↔◌, ◌∷◌, ◌≡◌,
}
use gatefs.Text.{bytes}

-- The request 1 with its waiter 0.
abbrev one_wait : List (ℕ × ℕ)
one_wait = (1, 0) ∷ []

wait_for_all-proceed_example :
    (wait_for_all one_wait world ≡ some proceed)
    ↔ All (λ e. is_approval (Map.get e.1 world.decided) ≡ true) one_wait
wait_for_all-proceed_example = wait_for_all-proceed one_wait world

abbrev docs_effect : ReadWriteEffect
docs_effect = effect read docs (bytes " READ file")

abbrev nothing_asked : Asked
nothing_asked = record { waits = []; consumed_events = [] }

ask_effect-IsAnswered_example :
    IsAnswered outside read_access box docs_effect nothing_asked world
      (ask_effect outside read_access home docs_effect nothing_asked world)
unfolding Map.get cmp_list
ask_effect-IsAnswered_example =
    ask_effect-IsAnswered outside read_access box home docs_effect nothing_asked world refl (tt, tt)

cancel_unresolved_read_write_effects_lem_example :
    Map.get 1 (cancel_unresolved_read_write_effects one_wait world).registry.pending_read_write
    ≡ (if any (λ e. e.0 == 1) one_wait then none else Map.get 1 world.registry.pending_read_write)
cancel_unresolved_read_write_effects_lem_example =
    cancel_unresolved_read_write_effects_lem one_wait world 1

ask_leave-free_example :
    (ask_leave outside read_access world ≡ (world, inr []))
    × (finish_leave [] world ≡ some (world, proceed))
unfolding Map.get cmp_list needs_no_leave effects is_xattr_operation is_bypass is_protected
    matches_rule any is_expired add_layer
ask_leave-free_example =
    ask_leave-free outside read_access box world refl (tt, tt) (refl, tt) (refl, tt)
