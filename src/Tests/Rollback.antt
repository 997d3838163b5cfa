-- ===== src/Tests/Rollback.antt =====
-- rollback/ on concrete inputs.
use project_whitequbit.Base.{
  ℕ, zero, suc, ◌+◌, ◌≡◌, refl, true, false, some, List, [], ◌∷◌, ok, err, ltb, arith, text_key,
  number_key, ◌==◌, if◌then◌else◌,
}
use project_whitequbit.Base.Hash.{Hashing}
use project_whitequbit.Base.Map
use project_whitequbit.Rollback.Journal.{
  JournalEntry, prepared, committed, Journal, UncommittedEntry, prepare, append_entry, mark,
  compact, new_entry,
}
use project_whitequbit.Rollback.Journal.Durability.{IsDurable, prepare-IsDurable, mark-IsDurable}
use project_whitequbit.Rollback.Journal.Compaction.{compact-IsDurable, compact_keeps_unfinished}
use project_whitequbit.Rollback.Compensator.{
  Compensator, Handler, new_compensator, register_handler, compensate,
}
use project_whitequbit.Rollback.Compensator.Attempts.{Outcome, compensate-Outcome}
use project_whitequbit.Rollback.Recovery.{needs_recovery, recover}
use project_whitequbit.Rollback.Recovery.Completeness.{recover_leaves_none}
use project_whitequbit.Rollback.Journal.{open_journal, load_lines}

-- A hash that keeps the parity of a sum.
abbrev total : List ℕ → ℕ
total [] = 0
total (n ∷ ns) = n + total ns

abbrev hashing : Hashing ℕ
hashing = record {
  digest = λ bs. if ltb 100 (total bs) then "large" else "small";
  text_bytes = λ s. if s == "" then [] else 7 ∷ [];
  data_bytes = λ n. n ∷ [];
  time_bytes = λ n. n ∷ [];
}

abbrev empty_journal : Journal ℕ
empty_journal = record {
  lines = [];
  entries = [];
  next_id = 1;
  healthy = true;
  leaves_line = false;
}

empty-IsDurable : IsDurable hashing empty_journal
empty-IsDurable = record {
  loads = λ id. unfold load_lines in refl;
  last_below = unfold load_lines in omega arith;
  below = λ id h. absurd (unfold Map.get in ground (arith, h));
  unique = tt;
  own = tt;
  verified = tt;
}

abbrev one_prepared : Journal ℕ
one_prepared = (prepare hashing "a" "firewall" 1 2 5 empty_journal).0

prepare-IsDurable_example :
    ((prepare hashing "a" "firewall" 1 2 5 empty_journal).1 ≡ ok 1)
    × (Map.get 1 one_prepared.entries ≡ some (new_entry hashing 1 "a" "firewall" 1 2 5))
    × IsDurable hashing one_prepared
prepare-IsDurable_example =
    (prepare-IsDurable hashing "a" "firewall" 1 2 5 empty_journal (omega arith) empty-IsDurable).0
      refl

one-IsDurable : IsDurable hashing one_prepared
one-IsDurable =
    ((prepare-IsDurable hashing "a" "firewall" 1 2 5 empty_journal (omega arith) empty-IsDurable).0
      refl).2

one-healthy : one_prepared.healthy ≡ true
unfolding prepare append_entry
one-healthy = refl

mark-IsDurable_example : IsDurable hashing (mark hashing committed 1 6 one_prepared).0
mark-IsDurable_example = mark-IsDurable hashing committed 1 6 one_prepared one-healthy one-IsDurable

compact-IsDurable_example : IsDurable hashing (compact 0 one_prepared).0
compact-IsDurable_example = compact-IsDurable hashing 0 one_prepared one-healthy one-IsDurable

abbrev undone : JournalEntry ℕ
undone = record {
  id = 1;
  action_id = "a";
  action_type = "firewall";
  state = prepared;
  action_data = 1;
  compensation_data = 2;
  created_at = 5;
  updated_at = 5;
  checksum = "small";
}

abbrev done : JournalEntry ℕ
done = record undone { id = 2; state = committed }

abbrev two_entries : Journal ℕ
two_entries = record {
  lines = [];
  entries = (1, undone) ∷ (2, done) ∷ [];
  next_id = 3;
  healthy = true;
  leaves_line = false;
}

compact_keeps_unfinished_example : Map.get 1 (compact 0 two_entries).0.entries ≡ some undone
unfolding Map.get
compact_keeps_unfinished_example =
    compact_keeps_unfinished 0 two_entries 1 undone (refl, (refl, tt)) (refl, (refl, tt)) refl refl

-- A handler that is busy as many times as its state says.
abbrev busy_handler : Handler ℕ ℕ
busy_handler action_type undo zero = (zero, ok tt)
busy_handler action_type undo (suc n) = (n, err "busy")

abbrev compensator : Compensator ℕ ℕ
compensator = register_handler "firewall" busy_handler new_compensator

abbrev first : UncommittedEntry ℕ
first = record { id = 1; action_id = "a"; action_type = "firewall"; compensation_data = 2 }

abbrev second : UncommittedEntry ℕ
second = record first { id = 2 }

compensate-Outcome_example :
    Outcome busy_handler first compensator.max_retries 2 (compensate (λ s. s) compensator first 2)
unfolding register_handler new_compensator Map.insert Map.get
compensate-Outcome_example = compensate-Outcome (λ s. s) compensator busy_handler first 2 refl

recover_leaves_none_example :
    needs_recovery (
      open_journal hashing
        (recover hashing (λ id s. s) (λ s. s) compensator 9 (one_prepared, 1)).0.0.lines)
    ≡ false
recover_leaves_none_example =
    (recover_leaves_none hashing (λ id s. s) (λ s. s) compensator 9 one_prepared 1 one-healthy
      one-IsDurable).1
