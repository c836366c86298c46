-- ===== src/Metadata/Independence.antt =====
-- Requests of different kinds are independent: what one writes, the other leaves. (src/state.rs)
use gatefs.Base.{
  ==_iff, Bool, Bool-cases, List, Option, [], all, any, ap, arith, false, inl, inr, is_some, not,
  or_else, refl, some, subst, sym, true, ◌&&◌, ◌==◌, ◌||◌, ◌∙◌, ◌∷◌, ◌≡◌,
}
use gatefs.Metadata.{
  MetadataOperation, MetadataOverride, PendingOperationKind, chattr, chmod, chown, flags, gid, mode,
  no_override, pending_kind_ord, pending_kinds, remove_xattr, set_attr, set_xattr, times, uid,
  write_override, xattr,
}

-- What an operation writes, as an override.
abbrev delta : MetadataOperation → MetadataOverride
delta (chmod p m) = record no_override { mode = some m }
delta (chown p u g) = record no_override { uid = u; gid = g }
delta (chattr p f) = record no_override { flags = some f }
delta (set_attr p o) = o
delta (set_xattr p name) = no_override
delta (remove_xattr p name) = no_override

abbrev overlay : MetadataOverride → MetadataOverride → MetadataOverride
overlay d o = record {
  mode = or_else d.mode o.mode;
  uid = or_else d.uid o.uid;
  gid = or_else d.gid o.gid;
  flags = or_else d.flags o.flags;
  atime = or_else d.atime o.atime;
  mtime = or_else d.mtime o.mtime;
}

write_override-overlay :
    (op : MetadataOperation) (o : MetadataOverride) → write_override op o ≡ overlay (delta op) o
unfolding write_override
write_override-overlay (chmod p m) o = refl
write_override-overlay (chown p u g) o = refl
write_override-overlay (chattr p f) o = refl
write_override-overlay (set_attr p a) o = refl
write_override-overlay (set_xattr p name) o = refl
write_override-overlay (remove_xattr p name) o = refl

-- The fields that a kind stands for are written.
abbrev writes : PendingOperationKind → MetadataOverride → Bool
writes mode d = is_some d.mode
writes uid d = is_some d.uid
writes gid d = is_some d.gid
writes flags d = is_some d.flags
writes times d = is_some d.atime || is_some d.mtime
writes xattr d = false

abbrev waits_on : PendingOperationKind → MetadataOperation → Bool
waits_on kind op = any (λ k. k == kind) (pending_kinds op)

-- An operation writes the fields of a kind only if it waits on that kind.
writes→waits_on :
    (op : MetadataOperation) (kind : PendingOperationKind)
    → writes kind (delta op) ≡ true
    → waits_on kind op ≡ true
unfolding any pending_kinds
writes→waits_on (chmod p m) mode h = ground arith
writes→waits_on (chown p u g) mode h = ground arith
writes→waits_on (chattr p f) mode h = ground arith
writes→waits_on (set_attr p o) mode h = ground arith
writes→waits_on (set_xattr p name) mode h = ground arith
writes→waits_on (remove_xattr p name) mode h = ground arith
writes→waits_on op kind h = ground arith

-- No kind is in both lists.
abbrev disjoint_kinds : MetadataOperation → MetadataOperation → Bool
disjoint_kinds a b = all (λ k. not (waits_on k b)) (pending_kinds a)

all-any :
    (p : PendingOperationKind → Bool) (kind : PendingOperationKind) (ks : List PendingOperationKind)
    → all p ks ≡ true
    → any (λ k. k == kind) ks ≡ true
    → p kind ≡ true
unfolding all any
all-any p kind [] h e = cc
all-any p kind (k ∷ ks) h e = elim (Bool-cases (k == kind)) [
  | inl f ↦ subst (λ j. p j ≡ true) ((==_iff k kind).0 f) (ground arith)
  | inr f ↦ all-any p kind ks (ground arith) (ground arith)
]

not_both :
    (a b : MetadataOperation) (kind : PendingOperationKind)
    → disjoint_kinds a b ≡ true
    → (writes kind (delta a) && writes kind (delta b)) ≡ false
not_both a b kind h = ground (
  arith,
  all-any (λ k. not (waits_on k b)) kind (pending_kinds a) h,
  writes→waits_on a kind,
  writes→waits_on b kind,
)

or_else_comm {ℓ} :
    {A : Type ℓ} (x y z : Option A)
    → (is_some x && is_some y) ≡ false
    → or_else x (or_else y z) ≡ or_else y (or_else x z)
or_else_comm x y z h = ground arith

overlay_comm :
    (d e o : MetadataOverride)
    → ((kind : PendingOperationKind) → (writes kind d && writes kind e) ≡ false)
    → overlay d (overlay e o) ≡ overlay e (overlay d o)
overlay_comm d e o h = λ i. record {
  mode = or_else_comm d.mode e.mode o.mode (h mode) i;
  uid = or_else_comm d.uid e.uid o.uid (h uid) i;
  gid = or_else_comm d.gid e.gid o.gid (h gid) i;
  flags = or_else_comm d.flags e.flags o.flags (h flags) i;
  atime = or_else_comm d.atime e.atime o.atime (apart_atime (h times)) i;
  mtime = or_else_comm d.mtime e.mtime o.mtime (apart_mtime (h times)) i;
}
  where
    apart_atime :
        (writes times d && writes times e) ≡ false → (is_some d.atime && is_some e.atime) ≡ false
    apart_atime t = ground arith

    apart_mtime :
        (writes times d && writes times e) ≡ false → (is_some d.mtime && is_some e.mtime) ≡ false
    apart_mtime t = ground arith

-- Two operations that wait on no common kind leave the same override in either order.
pub write_override_comm :
    (a b : MetadataOperation) (o : MetadataOverride)
    → disjoint_kinds a b ≡ true
    → write_override a (write_override b o) ≡ write_override b (write_override a o)
write_override_comm a b o h =
    write_override-overlay a (write_override b o)
    ∙ ap (overlay (delta a)) (write_override-overlay b o)
    ∙ overlay_comm (delta a) (delta b) o (λ kind. not_both a b kind h)
    ∙ sym (ap (overlay (delta b)) (write_override-overlay a o))
    ∙ sym (write_override-overlay b (write_override a o))

-- An operation that waits on no kind writes nothing.
pub write_override-no_kinds :
    (op : MetadataOperation) (o : MetadataOverride)
    → pending_kinds op ≡ []
    → write_override op o ≡ o
unfolding write_override pending_kinds
write_override-no_kinds (chmod p m) o h = cc
write_override-no_kinds (chown p u g) o h = ground arith
write_override-no_kinds (chattr p f) o h = cc
write_override-no_kinds (set_attr p a) o h = ground arith
write_override-no_kinds (set_xattr p name) o h = refl
write_override-no_kinds (remove_xattr p name) o h = refl
