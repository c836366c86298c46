-- ===== src/Fs/Supersede.antt =====
-- src/fs.rs: that a metadata request finds its keys free, after the older requests are denied.
use gatefs.Registry.Partial.{
  IsIndexedBut, remove_found-IsIndexedBut, same-IsIndexedBut, some-none-if,
}
use gatefs.Fs.Keys.{get-take_keys, take_keys-any, unique_ids-any}
use gatefs.Map.{keys}
use gatefs.Text.{bytes, decimal}
use gatefs.StdPath.{PathBuf}
use gatefs.World.{Outside, World, append_line, format_attach_field}
use gatefs.Session.Board.{append_line-board}
use gatefs.Session.{with_registry}
use gatefs.Registry.Index.{IsIndexed, IsIndexedBut-IsIndexed, next_id}
use gatefs.Registry.{
  SandboxRegistry, next_operation_id, points_to, remove_found, remove_pending_request, unindex_keys,
}
use gatefs.Fs.Change.{supersede, supersede_found, take_keys, unique_ids}
use gatefs.Pending.{PendingMetadataRequest, PendingOperationKey, operation_key_ord, request_keys}
use gatefs.Registry.Keys.{get-unindex_keys, has_key}
use gatefs.Base.{
  Bool, Bool-cases, List, Option, [], any, ap, arith, false, if_elim, inl, inr, length, list_ord,
  nat_ord, none, refl, some, sym, true, ℕ, ◌&&◌, ◌++◌, ◌+◌, ◌<◌, ◌==◌, ◌^◌, ◌∙◌, ◌∷◌, ◌≡◌, ◌≤◌,
}
use gatefs.Map

-- What a round of the loop keeps: the index but for the ids that are left, and the room for ids.
abbrev Superseded : List ℕ → ℕ → SandboxRegistry → SandboxRegistry → Type 0
Superseded ids used r s =
    IsIndexedBut ids s
    × ((s.next_operation ≤ r.next_operation + used)
        × ((key : PendingOperationKey)
            → Map.get key r.pending_index ≡ none
            → Map.get key s.pending_index ≡ none))

unindexed_none :
    (id : ℕ) (ids : List PendingOperationKey) (key : PendingOperationKey)
    (index : List (PendingOperationKey × ℕ))
    → Map.get key index ≡ none
    → Map.get key (unindex_keys id ids index) ≡ none
unindexed_none id keys key index h =
    get-unindex_keys id keys key index
    ∙ if_elim (λ o. o ≡ none) (has_key key keys && points_to (Map.get key index) id) refl h

module _ (outside : Outside) (log : PathBuf) where
  supersede_found-Superseded :
      (id : ℕ) (ids : List ℕ) (w : World) (x : Option PendingMetadataRequest)
      → Map.get id w.registry.pending ≡ x
      → w.registry.next_operation + 1 < 2 ^ 64
      → IsIndexedBut (id ∷ ids) w.registry
      → Superseded ids 1 w.registry
          (supersede_found outside log id w (remove_found id x w.registry)).0.registry
  unfolding supersede_found remove_found next_operation_id
  supersede_found-Superseded id ids w none e room i =
      (remove_found-IsIndexedBut id ids w.registry none e i, (omega arith, λ key h. h))
  supersede_found-Superseded id ids w (some q) e room i = (
    same-IsIndexedBut ids (remove_found id (some q) w.registry).0 after (ap (λ r. r.pending) same)
        (ap (λ r. r.pending_index) same)
        (omega (arith, ap (λ r. r.next_operation) same, next_id w.registry.next_operation room))
        (remove_found-IsIndexedBut id ids w.registry (some q) e i),
    (
      omega (arith, ap (λ r. r.next_operation) same, next_id w.registry.next_operation room),
      λ key h.
          ap (λ r. Map.get key r.pending_index) same
          ∙ unindexed_none id (request_keys q) key w.registry.pending_index h,
    ),
  )
    where
      numbered : SandboxRegistry
      numbered = (next_operation_id (remove_found id (some q) w.registry).0).0

      line : World × Bool
      line =
          append_line outside log w.registry.next_operation
            (bytes "decision request="
              ++ (decimal id
                  ++ (format_attach_field q.attach_id ++ bytes " DENY reason=superseded")))
            (record w { registry = numbered })

      same : line.0.registry ≡ numbered
      same =
          (append_line-board outside log w.registry.next_operation
            (bytes "decision request="
              ++ (decimal id
                  ++ (format_attach_field q.attach_id ++ bytes " DENY reason=superseded")))
            (record w { registry = numbered })).0

      after : SandboxRegistry
      after = record line.0.registry {
        pending_waiters = Map.remove id line.0.registry.pending_waiters;
      }

  supersede-Superseded :
      (ids : List ℕ) (w : World)
      → w.registry.next_operation + length ids < 2 ^ 64
      → IsIndexedBut ids w.registry
      → Superseded [] (length ids) w.registry (supersede outside log ids w).0.registry
  unfolding supersede remove_pending_request
  supersede-Superseded [] w room i = (i, (omega arith, λ key h. h))
  supersede-Superseded (id ∷ ids) w room i =
      let first =
        supersede_found-Superseded id ids w (Map.get id w.registry.pending) refl
          (omega (arith, room)) i in
      let w1 : World =
        (supersede_found outside log id w (remove_pending_request id w.registry)).0 in
      let later = supersede-Superseded ids w1 (omega (arith, room, first.1.0)) first.0 in
      (later.0, (omega (arith, first.1.0, later.1.0), λ key h. later.1.1 key (first.1.1 key h)))

-- Where the index is exact and there is room for the ids, the loop of a metadata request over the
-- older requests of its keys leaves an exact index with none of those keys: each older request that
-- waits on one of them is taken out as a whole, and no other loses its entries.
pub supersede-IsIndexed :
    (outside : Outside) (log : PathBuf) (ks : List PendingOperationKey) (w : World)
    → IsIndexed w.registry
    → w.registry.next_operation + length (unique_ids [] (take_keys ks w.registry.pending_index).1)
      < 2 ^ 64
    → IsIndexed
        (supersede outside log (unique_ids [] (take_keys ks w.registry.pending_index).1) (
          with_registry w (record w.registry {
            pending_index = (take_keys ks w.registry.pending_index).0;
          }))).0.registry
      × (((key : PendingOperationKey)
            → has_key key ks ≡ true
            → Map.get key
                (supersede outside log (unique_ids [] (take_keys ks w.registry.pending_index).1) (
                  with_registry w (record w.registry {
                    pending_index = (take_keys ks w.registry.pending_index).0;
                  }))).0.registry.pending_index
              ≡ none)
          × ((supersede outside log (unique_ids [] (take_keys ks w.registry.pending_index).1) (
                with_registry w (record w.registry {
                  pending_index = (take_keys ks w.registry.pending_index).0;
                }))).0.registry.next_operation
              ≤ w.registry.next_operation
                + length (unique_ids [] (take_keys ks w.registry.pending_index).1)))
unfolding any
supersede-IsIndexed outside log ks w i room = (
  IsIndexedBut-IsIndexed done.0,
  (λ key k. done.1.1 key (get-take_keys ks key w.registry.pending_index ∙ rw k refl), done.1.0),
)
  where
    ids : List ℕ
    ids = unique_ids [] (take_keys ks w.registry.pending_index).1

    taken : SandboxRegistry
    taken = record w.registry { pending_index = (take_keys ks w.registry.pending_index).0 }

    out_of_keys :
        (key : PendingOperationKey) (id : ℕ)
        → Map.get key w.registry.pending_index ≡ some id
        → any (λ i. i == id) ids ≡ false
        → has_key key ks ≡ false
    out_of_keys key id h out = elim (Bool-cases (has_key key ks)) [
      | inl b ↦ ground (
        arith,
        out,
        unique_ids-any [] (take_keys ks w.registry.pending_index).1 id
            ∙ take_keys-any ks key w.registry.pending_index id h b,
      )
      | inr b ↦ b
    ]

    but : IsIndexedBut ids taken
    but = record {
      own_id = i.own_id;
      below = i.below;
      sound = λ key id g.
          i.sound key id
            (some-none-if (has_key key ks) id (Map.get key w.registry.pending_index)
              (sym (get-take_keys ks key w.registry.pending_index) ∙ g)).1;
      complete = λ key id q g k out.
          get-take_keys ks key w.registry.pending_index
          ∙ rw (out_of_keys key id (i.complete key id q g k) out) (i.complete key id q g k);
    }

    done :
        Superseded []
          (length ids)
          taken
          (supersede outside log ids (with_registry w taken)).0.registry
    done = supersede-Superseded outside log ids (with_registry w taken) room but
