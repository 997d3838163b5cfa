-- ===== src/Ttl/Registry/Histories.antt =====
-- Any history of the TTL registry's own operations keeps its two indexes in step.
use project_whitequbit.Base.{ℕ, ◌≡◌, List, [], ◌∷◌, All}
use project_whitequbit.Ttl.Entry.{RuleId, TtlState, TtlEntry}
use project_whitequbit.Ttl.Registry.{
  TtlRegistry, empty_registry, register, cancel, get_mut, mark, mark_expired, update_expiration,
}
use project_whitequbit.Ttl.Registry.Consistency.{
  IsConsistent, empty-IsConsistent, register-IsConsistent, cancel-IsConsistent,
  get_mut-IsConsistent, mark-IsConsistent, mark_expired-IsConsistent,
  update_expiration-IsConsistent,
}

-- The calls that change a registry; `marking` is `mark_expiring` and `mark_failed`, and `reaching`
-- is `get_mut` with what its caller does to the entry.
pub data Operation : Type 0 where
  registering : TtlEntry → Operation
  cancelling expiring_out : RuleId → Operation
  marking : TtlState → RuleId → Operation
  updating : RuleId → ℕ → Operation
  reaching : RuleId → (TtlEntry → TtlEntry) → Operation

unfoldable pub perform : TtlRegistry → Operation → TtlRegistry
perform r (registering e) = (register r e).0
perform r (cancelling id) = (cancel r id).0
perform r (expiring_out id) = (mark_expired r id).0
perform r (marking s id) = (mark s r id).0
perform r (updating id t) = (update_expiration r id t).0
perform r (reaching id f) = get_mut f r id

unfoldable pub perform_all : TtlRegistry → List Operation → TtlRegistry
perform_all r [] = r
perform_all r (op ∷ ops) = perform_all (perform r op) ops

-- What is done to an entry through `get_mut` leaves its rule and its expiry alone.
abbrev pub LeavesKeys : Operation → Type 0
LeavesKeys (reaching id f) =
    ((e : TtlEntry) → (f e).rule_id ≡ e.rule_id)
    × ((e : TtlEntry) → (f e).expires_at_ms ≡ e.expires_at_ms)
LeavesKeys _ = Unit

perform-IsConsistent :
    (r : TtlRegistry) (op : Operation)
    → LeavesKeys op
    → IsConsistent r
    → IsConsistent (perform r op)
unfolding perform
perform-IsConsistent r (registering e) k c = register-IsConsistent r e c
perform-IsConsistent r (cancelling id) k c = cancel-IsConsistent r id c
perform-IsConsistent r (expiring_out id) k c = mark_expired-IsConsistent r id c
perform-IsConsistent r (marking s id) k c = mark-IsConsistent s r id c
perform-IsConsistent r (updating id t) k c = update_expiration-IsConsistent r id t c
perform-IsConsistent r (reaching id f) k c = get_mut-IsConsistent f r id k.0 k.1 c

perform_all-IsConsistent :
    (r : TtlRegistry) (ops : List Operation)
    → All LeavesKeys ops
    → IsConsistent r
    → IsConsistent (perform_all r ops)
unfolding perform_all
perform_all-IsConsistent r [] k c = c
perform_all-IsConsistent r (op ∷ ops) k c =
    perform_all-IsConsistent (perform r op) ops k.1 (perform-IsConsistent r op k.0 c)

-- After any history of registry calls from the empty registry in which what is done to entries through `get_mut`
-- leaves their rule and their expiry alone, a rule stands in exactly the bucket of its entry's expiry,
-- entries stand under their own rules with one entry a rule, and the buckets ascend and are not empty.
pub history-IsConsistent :
    (ops : List Operation) → All LeavesKeys ops → IsConsistent (perform_all empty_registry ops)
history-IsConsistent ops k = perform_all-IsConsistent empty_registry ops k empty-IsConsistent
