-- ===== src/Store/Fold/Sites.antt =====
-- fold.rs, 785-849: identity of run-path sites, and the merge of evidence manifests.
use pointlock.Prelude.{
  ◌+◌, Bool, true, false, ◌&&◌, Option, some, List, [], ◌∷◌, ◌==◌, if◌then◌else◌, str_eq, option_eq,
  length, push, last?, any, zip_all,
}
use pointlock.Ir.RunPath.{PathFrame, RunPath, frame_eq}
use pointlock.Ir.Record.{EvidenceRef}

-- Whether two frames name one site: the hashes of a flow and of a callee are not compared.
unfoldable pub same_site : PathFrame → PathFrame → Bool
unfolding frame_eq
same_site (PathFrame.flow f _) (PathFrame.flow g _) = str_eq f g
same_site (PathFrame.step s) (PathFrame.step t) = str_eq s t
same_site (PathFrame.call s f _) (PathFrame.call t g _) = option_eq str_eq s t && str_eq f g
same_site (PathFrame.iteration i a) (PathFrame.iteration j b) = i == j && option_eq str_eq a b
same_site a b = frame_eq a b

unfoldable pub same_instance : RunPath → RunPath → Bool
same_instance a b = length a == length b && zip_all same_site a b

is_body_frame : Option PathFrame → Bool
is_body_frame (some (PathFrame.step _)) = true
is_body_frame (some (PathFrame.call _ _ _)) = true
is_body_frame _ = false

-- Whether `path` is a direct body child of the frame rooted at `prefix`.
unfoldable pub direct_body_child : RunPath → RunPath → Bool
unfolding is_body_frame
direct_body_child prefix path =
    length path == length prefix + 1
    && (zip_all same_site prefix path && is_body_frame (last? path))

-- The dedup key of a manifest entry: the digest and the asset's id.
abbrev pub same_evidence : EvidenceRef → EvidenceRef → Bool
same_evidence existing entry =
    str_eq existing.sha256 entry.sha256 && str_eq existing.asset.id entry.asset.id

abbrev pub add_evidence : List EvidenceRef → EvidenceRef → List EvidenceRef
add_evidence evidence entry =
    if any (λ existing. same_evidence existing entry) evidence
    then evidence
    else push evidence entry

-- The loop of `merge_evidence` over the localized manifest.
unfoldable pub merge_evidence : List EvidenceRef → List EvidenceRef → List EvidenceRef
merge_evidence evidence [] = evidence
merge_evidence evidence (entry ∷ localized) = merge_evidence (add_evidence evidence entry) localized
