-- ===== src/Observability/Versioning/Store/Chain.antt =====
-- When the versions of a store form a chain, and when they do not.
use project_whitequbit.Base.{
  ℕ, ◌+◌, ◌≤◌, ◌≡◌, refl, ap, sym, subst, ◌∙◌, u64, Bool, true, false, Option, none, some, List, [],
  ◌∷◌, ◌++◌, Result, ok, length, leb, all, ◌&&◌, if◌then◌else◌, arith, text_key, ◌==◌, ==_iff,
  Bool-cases, inl, inr,
}
use project_whitequbit.Base.Hash.{Hashing}
use project_whitequbit.Observability.Versioning.Version.{
  SecurityVersion, Clock, VersionMetadata, compute_version_hash, new_version, verify_version,
  follows,
}
use project_whitequbit.Observability.Versioning.History.{
  VersionHistory, pop_oldest, evicted, push_version, last_of, latest, chained, history_chained,
}
use project_whitequbit.Observability.Versioning.Store.{
  VersionStore, written, version_created, VersioningError, Change, is_same, parent_of,
  with_metadata, kept, unchanged_or, next_created, create_version, write_version_op,
  verify_integrity,
}

-- Whether a version follows the last one, if there is one.
abbrev pub linked : Option SecurityVersion → SecurityVersion → Bool
linked none v = true
linked (some w) v = follows v w

pub chained-snoc :
    (vs : List SecurityVersion) (v : SecurityVersion)
    → chained (vs ++ v ∷ []) ≡ (chained vs && linked (last_of vs) v)
unfolding chained
chained-snoc [] v = refl
chained-snoc (w ∷ []) v = ground arith
chained-snoc (w ∷ x ∷ vs) v = elim (Bool-cases (follows x w)) [
  | inl y ↦ rw (y, chained) (chained-snoc (x ∷ vs) v)
  | inr n ↦ rw (n, chained) refl
]

all-snoc :
    (p : SecurityVersion → Bool) (vs : List SecurityVersion) (v : SecurityVersion)
    → all p (vs ++ v ∷ []) ≡ (all p vs && p v)
all-snoc p [] v = ground arith
all-snoc p (w ∷ vs) v = elim (Bool-cases (p w)) [
  | inl y ↦ rw y (all-snoc p vs v)
  | inr n ↦ rw n refl
]

-- What holds of the versions, and of those after the oldest one, holds after an eviction.
popped :
    (Q : List SecurityVersion → Type 0) (vs : List SecurityVersion) (h : VersionHistory)
    → Q h.versions
    → ((old : SecurityVersion) (rest : List SecurityVersion) → vs ≡ old ∷ rest → Q rest)
    → Q (pop_oldest vs h).versions
popped Q [] h q f = q
popped Q (old ∷ rest) h q f = f old rest refl

either_way :
    (Q : List SecurityVersion → Type 0) (b : Bool) (h h' : VersionHistory)
    → (b ≡ true → Q h.versions)
    → Q h'.versions
    → Q (if b then h else h').versions
either_way Q true h h' f q = f refl
either_way Q false h h' f q = q

pub evicted_keeps :
    (Q : List SecurityVersion → Type 0) (h : VersionHistory)
    → Q h.versions
    → ((old : SecurityVersion) (rest : List SecurityVersion)
        → h.versions ≡ old ∷ rest
        → h.max_size ≤ length h.versions
        → Q rest)
    → Q (evicted h).versions
evicted_keeps Q h q f =
    either_way Q (leb h.max_size (length h.versions)) (pop_oldest h.versions h) h
      (λ full. popped Q h.versions h q (λ old rest same. f old rest same (ground (arith, full)))) q

last_of-snoc : (vs : List SecurityVersion) (v : SecurityVersion) → last_of (vs ++ v ∷ []) ≡ some v
last_of-snoc [] v = refl
last_of-snoc (w ∷ []) v = refl
last_of-snoc (w ∷ x ∷ vs) v = last_of-snoc (x ∷ vs) v

linked-tail :
    (old : SecurityVersion) (rest : List SecurityVersion) (v : SecurityVersion)
    → linked (last_of (old ∷ rest)) v ≡ true
    → linked (last_of rest) v ≡ true
linked-tail old [] v q = refl
linked-tail old (w ∷ vs) v q = q

-- The number comes after that of the last version.
abbrev pub Next : ℕ → Option SecurityVersion → Type 0
Next n none = Unit
Next n (some w) = n ≡ u64 (w.sequence + 1)

linked-Next :
    (o : Option SecurityVersion) (v : SecurityVersion) (n : ℕ)
    → v.parent_hash ≡ parent_of o
    → v.sequence ≡ n
    → Next n o
    → linked o v ≡ true
unfolding follows
linked-Next none v n p q next = refl
linked-Next (some w) v n p q next =
    let same : (v.parent_hash == w.version_hash) ≡ true =
      (==_iff v.parent_hash w.version_hash).1 p in
    rw same (ground (arith, q ∙ next))

if_false : {A : Type 0} (b : Bool) (x y : A) → b ≡ true → (if b then x else y) ≡ x
if_false true x y q = refl
if_false false x y q = ground arith

not_same :
    (b : Bool) (o : Option SecurityVersion) (s : VersionStore)
    (other : VersionStore × Result VersioningError SecurityVersion)
    → b ≡ false
    → unchanged_or b o s other ≡ other
not_same true o s other q = ground arith
not_same false o s other q = refl

module _ {D : Type 0} (hashing : Hashing D) where
  -- The versions are chained and hashed rightly, and the number comes after the last one.
  abbrev pub Sound : ℕ → List SecurityVersion → Type 0
  Sound n vs = (chained vs ≡ true) × (all (verify_version hashing) vs ≡ true) × Next n (last_of vs)

  Sound-tail :
      (n : ℕ) (old : SecurityVersion) (rest : List SecurityVersion)
      → Sound n (old ∷ rest)
      → Sound n rest
  unfolding chained
  Sound-tail n old [] s = (refl, refl, tt)
  Sound-tail n old (w ∷ vs) (c, a, next) = (ground (arith, c), ground (arith, a), next)

  -- The metadata changes neither the place of a version nor its hash.
  abbrev Alike : SecurityVersion → SecurityVersion → Type 0
  Alike v v' =
      (v'.sequence ≡ v.sequence)
      × (v'.parent_hash ≡ v.parent_hash)
      × (v'.content_hash ≡ v.content_hash)
      × (verify_version hashing v' ≡ true)

  with_metadata-Alike :
      (m : Option VersionMetadata) (v : SecurityVersion)
      → compute_version_hash hashing v ≡ v.version_hash
      → Alike v (with_metadata m v)
  unfolding verify_version compute_version_hash
  with_metadata-Alike none v q =
      (refl, refl, refl, (==_iff (compute_version_hash hashing v) v.version_hash).1 q)
  with_metadata-Alike (some m) v q =
      (refl, refl, refl, (==_iff (compute_version_hash hashing v) v.version_hash).1 q)

  pub next_created-Alike :
      (c : Change) (clock : Clock) (s : VersionStore)
      → let v = next_created hashing c clock s in
        (v.sequence ≡ s.next_sequence)
        × (v.parent_hash ≡ parent_of (latest s.history))
        × (v.content_hash ≡ c.content_hash)
        × (verify_version hashing v ≡ true)
  unfolding new_version compute_version_hash
  next_created-Alike c clock s = with_metadata-Alike c.metadata _ refl

  -- A store in which the next version continues the chain.
  abbrev pub IsSound : VersionStore → Type 0
  IsSound s = Sound s.next_sequence s.history.versions

  -- The versions after one more, which continues the chain, was pushed.
  pushed-Sound :
      (h : VersionHistory) (v : SecurityVersion) (n : ℕ)
      → Sound n h.versions
      → linked (last_of h.versions) v ≡ true
      → verify_version hashing v ≡ true
      → v.sequence ≡ n
      → Sound (u64 (n + 1)) (push_version v h).versions
  unfolding push_version
  pushed-Sound h v n s l hashed q =
      let ((c, a, next), l') =
        evicted_keeps (λ vs. Sound n vs × (linked (last_of vs) v ≡ true)) h (s, l)
          (λ old rest same full.
            let (s', l') = subst (λ vs. Sound n vs × (linked (last_of vs) v ≡ true)) same (s, l) in
            (Sound-tail n old rest s', linked-tail old rest v l')) in
      let vs = (evicted h).versions in
      (
        chained-snoc vs v ∙ ground (arith, c, l'),
        all-snoc (verify_version hashing) vs v ∙ ground (arith, a, hashed),
        subst (Next (u64 (n + 1))) (sym (last_of-snoc vs v)) (ap (λ k. u64 (k + 1)) (sym q)),
      )

  -- The store after a version with new content is written.
  abbrev pub grown : Change → Clock → VersionStore → VersionStore
  grown c clock s = record s {
    next_sequence = u64 (s.next_sequence + 1);
    lines = s.lines ++ written (version_created (next_created hashing c clock s)) ∷ [];
    present = true;
    history = push_version (next_created hashing c clock s) s.history;
    total_versions = u64 (s.total_versions + 1);
  }

  pub create_version-grown :
      (c : Change) (clock : Clock) (s : VersionStore)
      → s.healthy ≡ true
      → is_same c.content_hash (latest s.history) ≡ false
      → create_version hashing c clock s ≡ (grown c clock s, ok (next_created hashing c clock s))
  unfolding create_version write_version_op
  create_version-grown c clock s well new =
      not_same (is_same c.content_hash (latest s.history)) (latest s.history) _ _ new
      ∙ ap (kept (next_created hashing c clock s)) (if_false s.healthy _ _ well)

  grown-IsSound :
      (c : Change) (clock : Clock) (s : VersionStore) → IsSound s → IsSound (grown c clock s)
  unfolding latest
  grown-IsSound c clock s sound =
      let (q, p, _, hashed) = next_created-Alike c clock s in
      pushed-Sound s.history (next_created hashing c clock s) s.next_sequence sound
        (linked-Next (last_of s.history.versions) (next_created hashing c clock s) s.next_sequence p
          q sound.2)
        hashed q

  abbrev pub create_all : List (Change × Clock) → VersionStore → VersionStore
  create_all [] s = s
  create_all ((c, clock) ∷ cs) s = create_all cs (create_version hashing c clock s).0

  -- Each change has content other than that of the latest version at its time.
  abbrev pub Varied : List (Change × Clock) → VersionStore → Type 0
  Varied [] s = Unit
  Varied ((c, clock) ∷ cs) s =
      (is_same c.content_hash (latest s.history) ≡ false)
      × Varied cs (create_version hashing c clock s).0

  -- Versions of ever new content keep the integrity of a store whose file takes writes, whatever its
  -- history forgets.
  pub create_all-IsSound :
      (cs : List (Change × Clock)) (s : VersionStore)
      → s.healthy ≡ true
      → Varied cs s
      → IsSound s
      → IsSound (create_all cs s) × (verify_integrity hashing (create_all cs s) ≡ true)
  unfolding verify_integrity history_chained
  create_all-IsSound [] s well varied sound = (sound, ground (arith, sound.0, sound.1))
  create_all-IsSound ((c, clock) ∷ cs) s well (new, varied) sound =
      let step = ap (λ o. o.0) (create_version-grown c clock s well new) in
      subst
        (λ s'. IsSound (create_all cs s') × (verify_integrity hashing (create_all cs s') ≡ true))
        (sym step)
        (create_all-IsSound cs (grown c clock s) well (subst (Varied cs) step varied)
          (grown-IsSound c clock s sound))
