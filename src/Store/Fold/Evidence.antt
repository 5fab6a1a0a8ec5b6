-- ===== src/Store/Fold/Evidence.antt =====
-- The merge of a localized manifest into a record's evidence.
use pointlock.Prelude.{
  ◌≡◌, refl, sym, ◌∙◌, Bool, true, false, ◌||◌, List, [], ◌∷◌, ◌++◌, arith, Bool-cases, inl, inr,
  push, any, str_eq_refl,
}
use mathlib.Core.List.{append-nil, append_assoc}
use pointlock.Ir.Record.{EvidenceRef}
use pointlock.Store.Fold.Sites.{same_evidence, add_evidence, merge_evidence}

-- Whether a manifest has an entry with this entry's digest and asset.
abbrev pub has_evidence : List EvidenceRef → EvidenceRef → Bool
has_evidence evidence entry = any (λ existing. same_evidence existing entry) evidence

any-push :
    (p : EvidenceRef → Bool) (xs : List EvidenceRef) (x : EvidenceRef)
    → any p (push xs x) ≡ (any p xs || p x)
any-push p [] x = ground arith
any-push p (y ∷ xs) x = ground (arith, any-push p xs x)

same_evidence_refl : (entry : EvidenceRef) → same_evidence entry entry ≡ true
same_evidence_refl entry = ground (arith, str_eq_refl entry.sha256, str_eq_refl entry.asset.id)

-- Adding an entry keeps the entries that are there, and has the added one.
has-add_evidence :
    (evidence : List EvidenceRef) (entry other : EvidenceRef)
    → has_evidence evidence other ≡ true
    → has_evidence (add_evidence evidence entry) other ≡ true
has-add_evidence evidence entry other h =
    ground (arith, any-push (λ existing. same_evidence existing other) evidence entry)

has-add_evidence_self :
    (evidence : List EvidenceRef) (entry : EvidenceRef)
    → has_evidence (add_evidence evidence entry) entry ≡ true
has-add_evidence_self evidence entry = ground (
  arith,
  any-push (λ existing. same_evidence existing entry) evidence entry,
  same_evidence_refl entry,
)

pub has-merge_evidence :
    (evidence localized : List EvidenceRef) (other : EvidenceRef)
    → has_evidence evidence other ≡ true
    → has_evidence (merge_evidence evidence localized) other ≡ true
unfolding merge_evidence
has-merge_evidence evidence [] other h = h
has-merge_evidence evidence (entry ∷ localized) other h =
    has-merge_evidence (add_evidence evidence entry) localized other
      (has-add_evidence evidence entry other h)

-- Every entry of the manifest has its key in the evidence.
abbrev pub Covers : List EvidenceRef → List EvidenceRef → Type 0
Covers evidence [] = Unit
Covers evidence (entry ∷ localized) =
    (has_evidence evidence entry ≡ true) × Covers evidence localized

merge_evidence-Covers :
    (evidence localized : List EvidenceRef) → Covers (merge_evidence evidence localized) localized
unfolding merge_evidence
merge_evidence-Covers evidence [] = tt
merge_evidence-Covers evidence (entry ∷ localized) = (
  has-merge_evidence (add_evidence evidence entry) localized entry
      (has-add_evidence_self evidence entry),
  merge_evidence-Covers (add_evidence evidence entry) localized,
)

-- A manifest that is covered adds nothing.
merge_of_Covers :
    (evidence localized : List EvidenceRef)
    → Covers evidence localized
    → merge_evidence evidence localized ≡ evidence
unfolding merge_evidence
merge_of_Covers evidence [] h = refl
merge_of_Covers evidence (entry ∷ localized) h = rw h.0 (merge_of_Covers evidence localized h.1)

-- No entry has the key of an earlier one.
abbrev pub IsDistinct : List EvidenceRef → List EvidenceRef → Type 0
IsDistinct seen [] = Unit
IsDistinct seen (entry ∷ rest) =
    (has_evidence seen entry ≡ false) × IsDistinct (push seen entry) rest

-- What a merge appends: entries whose keys are not there yet, each once.
merge_evidence-appends :
    (evidence localized : List EvidenceRef)
    → (added : List EvidenceRef) × (merge_evidence evidence localized ≡ evidence ++ added)
      × IsDistinct evidence added
unfolding merge_evidence
merge_evidence-appends evidence [] = ([], sym (append-nil evidence), tt)
merge_evidence-appends evidence (entry ∷ localized) =
    elim (Bool-cases (has_evidence evidence entry)) [
      | inl old ↦ rw old (merge_evidence-appends evidence localized)
      | inr new ↦
          let (added, e, distinct) = merge_evidence-appends (push evidence entry) localized in
          (entry ∷ added, rw new (e ∙ append_assoc evidence (entry ∷ []) added), (new, distinct))
    ]

-- Merging a manifest keeps the evidence that is there in its place and appends entries whose
-- digest and asset occur neither there nor twice; each entry of the manifest then has its key in
-- the evidence, and merging the manifest a second time changes nothing.
pub merge_evidence-dedups :
    (evidence localized : List EvidenceRef)
    → ((added : List EvidenceRef) × (merge_evidence evidence localized ≡ evidence ++ added)
        × IsDistinct evidence added)
      × Covers (merge_evidence evidence localized) localized
      × (merge_evidence (merge_evidence evidence localized) localized
          ≡ merge_evidence evidence localized)
merge_evidence-dedups evidence localized = (
  merge_evidence-appends evidence localized,
  merge_evidence-Covers evidence localized,
  merge_of_Covers (merge_evidence evidence localized) localized
      (merge_evidence-Covers evidence localized),
)
