-- ===== src/Ttl/Persister/Replay.antt =====
-- What the replay of the TTL log gives after a write and after a compaction.
use mathlib.Core.Path.{fun_ext}
use project_whitequbit.Base.{
  ℕ, ◌+◌, ◌-◌, ◌<◌, ◌≡◌, refl, Bool, true, false, List, [], ◌∷◌, ◌++◌, u64, u64_mod, ok, err, ◌>>=◌,
  text_key, arith, length, ap, ◌∙◌, bind_assoc,
}
use project_whitequbit.Base.Map
use project_whitequbit.Base.Map.{Map, values}
use project_whitequbit.Ttl.Entry.{RuleId, io_error, TtlEntry}
use project_whitequbit.Ttl.Persister.{
  TtlLogOp, register, update, remove, compacted, TtlLogEntry, Line, logged, Persister, Loaded,
  apply_op, replay_line, replay, write_op, compact, live_lines, seq_after,
}

pub replay-append :
    (xs ys : List Line) (s : Loaded) → replay (xs ++ ys) s ≡ (replay xs s >>= replay ys)
unfolding replay
replay-append [] ys s = refl
replay-append (x ∷ xs) ys s =
    ap (λ f. replay_line x s >>= f) (fun_ext (replay-append xs ys))
    ∙ bind_assoc (replay_line x s) (replay xs) (replay ys)

-- The log replays to these entries, and its next sequence number is above what is skipped.
pub record Holds (p : Persister) (m : Map RuleId TtlEntry) : Type 0 where
  pub skipped : ℕ
  pub replays : replay p.lines ([], 0) ≡ ok (m, skipped)
  pub fresh : skipped < p.next_seq

abbrev op_map : TtlLogOp → Map RuleId TtlEntry → Map RuleId TtlEntry
op_map op m = (apply_op op (m, 0)).0

-- An operation that is no compaction marker changes the entries alone.
abbrev pub is_marker : TtlLogOp → Bool
is_marker (compacted n) = true
is_marker _ = false

pub apply_op-plain :
    (op : TtlLogOp) (m : Map RuleId TtlEntry) (c : ℕ)
    → is_marker op ≡ false
    → apply_op op (m, c) ≡ ((apply_op op (m, 0)).0, c)
unfolding apply_op
apply_op-plain (register e) m c h = refl
apply_op-plain (update id state g) m c h = ground arith
apply_op-plain (remove id) m c h = refl
apply_op-plain (compacted n) m c h = cc

-- A log entry above what is skipped is applied.
replay_logged :
    (e : TtlLogEntry) (m : Map RuleId TtlEntry) (c : ℕ)
    → c < e.seq
    → replay (logged e ∷ []) (m, c) ≡ ok (apply_op e.op (m, c))
unfolding replay
replay_logged e m c h = ground arith

-- An operation whose line is in the file is in the replay.
longer-Holds :
    (op : TtlLogOp) (now : ℕ) (p : Persister) (m : Map RuleId TtlEntry) (well late : Bool)
    → is_marker op ≡ false
    → p.next_seq + 1 < u64_mod
    → Holds p m
    → Holds
        (record {
          lines = p.lines ++ logged (record { seq = p.next_seq; timestamp_ms = now; op = op }) ∷ [];
          next_seq = u64 (p.next_seq + 1);
          healthy = well;
          leaves_line = late;
        })
        (apply_op op (m, 0)).0
longer-Holds op now p m well late plain room h = record {
  skipped = h.skipped;
  replays =
      replay-append p.lines _ ([], 0)
      ∙ rw h.replays (replay_logged _ m h.skipped h.fresh)
      ∙ ap ok (apply_op-plain op m h.skipped plain);
  fresh = omega (arith, h.fresh);
}

-- A write that succeeds adds its operation to the replay. One that fails at the synchronisation does so too,
-- and one that fails earlier leaves the replay as it was.
pub write_op_lem :
    (op : TtlLogOp) (now : ℕ) (p : Persister) (m : Map RuleId TtlEntry)
    → is_marker op ≡ false
    → p.next_seq + 1 < u64_mod
    → Holds p m
    → let (q, r) = write_op op now p in
      (p.healthy ≡ true → (r ≡ ok tt) × Holds q (apply_op op (m, 0)).0)
      × (p.healthy ≡ false
          → (r ≡ err io_error)
            × (p.leaves_line ≡ false → Holds q m)
            × (p.leaves_line ≡ true → Holds q (apply_op op (m, 0)).0))
unfolding write_op
write_op_lem op now p m plain room h = (
  λ well. rw well (refl, longer-Holds op now p m true p.leaves_line plain room h),
  λ ill. rw ill (
    refl,
    λ early.
        rw early
          (record { skipped = h.skipped; replays = h.replays; fresh = omega (arith, h.fresh) }),
    λ late. rw late (longer-Holds op now p m false true plain room h),
  ),
)

-- The entries of a list under their rules, a later one of a rule over an earlier one.
unfoldable pub insert_all : List TtlEntry → Map RuleId TtlEntry → Map RuleId TtlEntry
insert_all [] m = m
insert_all (e ∷ es) m = insert_all es (Map.insert e.rule_id e m)

live_lines_lem :
    (live : List TtlEntry) (seq now : ℕ) (m : Map RuleId TtlEntry) (c : ℕ)
    → c < seq
    → seq + length live < u64_mod
    → (replay (live_lines seq now live) (m, c) ≡ ok (insert_all live m, c))
      × (seq_after seq live ≡ seq + length live)
unfolding live_lines seq_after insert_all replay
live_lines_lem [] seq now m c h room = (refl, omega arith)
live_lines_lem (e ∷ live) seq now m c h room = ground (
  arith,
  live_lines_lem live (seq + 1) now (Map.insert e.rule_id e m) c (omega arith) (omega arith),
)

-- After a compaction the log replays to the entries that were given, a later one of a rule over
-- an earlier one, provided that the sequence numbers do not wrap.
pub compact_lem :
    (live : List TtlEntry) (now : ℕ) (p : Persister)
    → p.healthy ≡ true
    → 0 < p.next_seq
    → p.next_seq + 1 + length live < u64_mod
    → ((compact live now p).1 ≡ ok tt) × Holds (compact live now p).0 (insert_all live [])
unfolding compact
compact_lem live now p well pos room =
    let next : u64 (p.next_seq + 1) ≡ p.next_seq + 1 = omega arith in
    let (lines, after) =
      live_lines_lem live (p.next_seq + 1) now [] (p.next_seq - 1) (omega arith) (omega arith) in
    rw well (
      refl,
      record {
        skipped = p.next_seq - 1;
        replays = unfold replay in ground (arith, lines, next);
        fresh = ground (arith, after, next);
      },
    )
