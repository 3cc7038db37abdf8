-- ===== src/Diff/Commented.antt =====
-- crates/revoot-core/src/diff.rs: hunks and their lines to comment on, said of texts and positions.
use revoot.Prelude.{
  ℕ, ◌+◌, ◌≡◌, ◌∙◌, refl, ap, false, List, [], ◌∷◌, ◌++◌, arith, map, All, All-append,
}
use revoot.Text.{Str, lit}
use revoot.Text.Search.{starts_with}
use revoot.Snapshot.{Sha256Digest}
use revoot.Snapshot.Change.{ChangedPath}
use revoot.Snapshot.Position.{AnchorPosition}
use revoot.Diff.{UnifiedDiffLimits}
use revoot.Diff.Header.{is_hunk_header}
use revoot.Diff.Hunk.{HunkLine}
use revoot.Diff.Hunks.{Hunk, AllHunks}
use revoot.Diff.Declared.{Declares, parse_hunk_header-Declares}
use revoot.Diff.Parser.{commentable}
use revoot.Diff.Added.{commentable_of}
use revoot.Diff.Sound.{NoHeader}

-- No line starts as the header of a hunk does.
abbrev pub IsHeadless : List Str → Type 0
IsHeadless [] = Unit
IsHeadless (line ∷ lines) =
    (starts_with line (lit "@@ ") ≡ false)
    × (starts_with line (lit "@@-") ≡ false)
    × IsHeadless lines

no_header :
    (line : Str)
    → is_hunk_header line ≡ false
    → (starts_with line (lit "@@ ") ≡ false) × (starts_with line (lit "@@-") ≡ false)
unfolding is_hunk_header
no_header line h = ground arith

pub NoHeader-IsHeadless : (lines : List Str) → NoHeader lines → IsHeadless lines
NoHeader-IsHeadless [] h = tt
NoHeader-IsHeadless (line ∷ lines) h =
    let first = no_header line h.0 in (first.0, first.1, NoHeader-IsHeadless lines h.1)

-- the positions of the lines of hunks
abbrev pub positions : List Hunk → List AnchorPosition
positions [] = []
positions (h ∷ hs) = map (λ r. r.position) h.records ++ positions hs

map-append : {A B : Type 0} (f : A → B) (xs ys : List A) → map f (xs ++ ys) ≡ map f xs ++ map f ys
map-append f [] ys = refl
map-append f (x ∷ xs) ys = ap (λ l. f x ∷ l) (map-append f xs ys)

module _ (sha256 : List ℕ → Sha256Digest) (path : ChangedPath) (limits : UnifiedDiffLimits) where
  pub AllHunks-Declares :
      (hs : List Hunk) → AllHunks path limits hs → All (λ h. Declares h.header_line h.header) hs
  AllHunks-Declares [] h = tt
  AllHunks-Declares (k ∷ hs) h = (
    parse_hunk_header-Declares k.header_line k.header.line limits h.0.headed,
    AllHunks-Declares hs h.1,
  )

  commentable-positions :
      (records rs : List HunkLine) (index : ℕ)
      → map (λ c. c.position) (commentable sha256 path limits records index rs)
        ≡ map (λ r. r.position) rs
  unfolding commentable
  commentable-positions records [] index = refl
  commentable-positions records (r ∷ rs) index =
      ap (λ l. r.position ∷ l) (commentable-positions records rs (index + 1))

  commentable-path :
      (records rs : List HunkLine) (index : ℕ)
      → All (λ c. c.path ≡ path) (commentable sha256 path limits records index rs)
  unfolding commentable
  commentable-path records [] index = tt
  commentable-path records (r ∷ rs) index = (refl, commentable-path records rs (index + 1))

  pub commentable_of-positions :
      (hs : List Hunk) → map (λ c. c.position) (commentable_of sha256 path limits hs) ≡ positions hs
  commentable_of-positions [] = refl
  commentable_of-positions (h ∷ hs) =
      map-append (λ c. c.position) (commentable sha256 path limits h.records 0 h.records)
        (commentable_of sha256 path limits hs)
      ∙ ap (λ l. l ++ map (λ c. c.position) (commentable_of sha256 path limits hs))
          (commentable-positions h.records h.records 0)
      ∙ ap (λ l. map (λ r. r.position) h.records ++ l) (commentable_of-positions hs)

  pub commentable_of-path :
      (hs : List Hunk) → All (λ c. c.path ≡ path) (commentable_of sha256 path limits hs)
  commentable_of-path [] = tt
  commentable_of-path (h ∷ hs) =
      All-append (λ c. c.path ≡ path) (commentable sha256 path limits h.records 0 h.records)
        (commentable_of sha256 path limits hs) (commentable-path h.records h.records 0)
        (commentable_of-path hs)
