-- ===== src/Observability/Versioning/Store/Repeat.antt =====
-- A change with the content of the latest version takes a number that no version gets.
use project_whitequbit.Base.{
  ℕ, ◌+◌, ◌≤◌, ◌≡◌, refl, ap, sym, subst, ◌∙◌, u64, Bool, true, false, Option, none, some, List, [],
  ◌∷◌, Result, ok, length, nat_eqb, ◌&&◌, arith, text_key, Bool-cases, inl, inr,
}
use project_whitequbit.Base.Hash.{Hashing}
use project_whitequbit.Observability.Versioning.Version.{SecurityVersion, Clock, follows}
use project_whitequbit.Observability.Versioning.History.{
  VersionHistory, evicted, push_version, last_of, latest, chained, history_chained,
}
use project_whitequbit.Observability.Versioning.Store.{
  VersionStore, VersioningError, Change, is_same, unchanged_or, next_created, create_version,
  verify_integrity,
}
use project_whitequbit.Observability.Versioning.Store.Chain.{
  linked, chained-snoc, evicted_keeps, Next, IsSound, create_version-grown, next_created-Alike,
}

abbrev HasLast : SecurityVersion → List SecurityVersion → Type 0
HasLast w vs = last_of vs ≡ some w

rest-HasLast :
    (old : SecurityVersion) (rest : List SecurityVersion) (w : SecurityVersion)
    → HasLast w (old ∷ rest)
    → 2 ≤ length (old ∷ rest)
    → HasLast w rest
rest-HasLast old [] w q several = ground (arith, several)
rest-HasLast old (v ∷ vs) w q several = q

-- An eviction leaves the last of several versions.
evicted-HasLast :
    (h : VersionHistory) (w : SecurityVersion)
    → 2 ≤ h.max_size
    → HasLast w h.versions
    → HasLast w (evicted h).versions
evicted-HasLast h w several q = evicted_keeps (HasLast w) h q (λ old rest same full.
    rest-HasLast old rest w (subst (HasLast w) same q)
      (subst (λ vs. 2 ≤ length vs) same (omega (arith, several, full))))

not_next :
    (v w : SecurityVersion) (n : ℕ)
    → v.sequence ≡ u64 (n + 1)
    → n ≡ u64 (w.sequence + 1)
    → follows v w ≡ false
unfolding follows
not_next v w n q next = elim (Bool-cases (nat_eqb v.sequence (u64 (w.sequence + 1)))) [
  | inr missed ↦ rw missed (ground arith)
  | inl found ↦ ground (arith, found, q, next)
]

same_last :
    (c : Change) (o : Option SecurityVersion) (s : VersionStore)
    (other : VersionStore × Result VersioningError SecurityVersion)
    → is_same c.content_hash o ≡ true
    → (w : SecurityVersion) × (o ≡ some w)
      × (unchanged_or (is_same c.content_hash o) o s other ≡ (s, ok w))
same_last c none s other q = ground arith
same_last c (some w) s other q = (w, refl, rw q refl)

false_first : (b c : Bool) → b ≡ false → (b && c) ≡ false
false_first true c q = ground arith
false_first false c q = refl

false_second : (b c : Bool) → c ≡ false → (b && c) ≡ false
false_second true c q = q
false_second false c q = refl

module _ {D : Type 0} (hashing : Hashing D) where
  -- A version whose number is not the next one breaks the chain of the history that it is pushed on.
  pushed_breaks :
      (h : VersionHistory) (v w : SecurityVersion)
      → 2 ≤ h.max_size
      → HasLast w h.versions
      → follows v w ≡ false
      → chained (push_version v h).versions ≡ false
  unfolding push_version
  pushed_breaks h v w several q unlinked =
      let last = evicted-HasLast h w several q in
      chained-snoc (evicted h).versions v
      ∙ false_second (chained (evicted h).versions) _ (ap (λ o. linked o v) last ∙ unlinked)

  -- In a store of chained versions whose history holds at least two, a change that repeats the content of
  -- the latest version, and then one with new content, make the integrity check fail.
  pub repeat_breaks :
      (c c' : Change) (clock clock' : Clock) (s : VersionStore)
      → s.healthy ≡ true
      → IsSound hashing s
      → 2 ≤ s.history.max_size
      → is_same c.content_hash (latest s.history) ≡ true
      → is_same c'.content_hash (latest s.history) ≡ false
      → verify_integrity hashing
          (create_version hashing c' clock' (create_version hashing c clock s).0).0
        ≡ false
  unfolding create_version verify_integrity history_chained latest
  repeat_breaks c c' clock clock' s well sound several same new =
      let s₁ : VersionStore = record s { next_sequence = u64 (s.next_sequence + 1) } in
      let (w, last, again) = same_last c (latest s.history) s₁ _ same in
      let v = next_created hashing c' clock' s₁ in
      let unlinked =
        not_next v w s.next_sequence (next_created-Alike hashing c' clock' s₁).0
          (subst (Next s.next_sequence) last sound.2) in
      subst (λ o. verify_integrity hashing (create_version hashing c' clock' o.0).0 ≡ false)
        (sym again)
        (subst (λ o. verify_integrity hashing o.0 ≡ false)
          (sym (create_version-grown hashing c' clock' s₁ well new))
          (false_first _ _ (pushed_breaks s.history v w several last unlinked)))
