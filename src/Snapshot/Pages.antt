-- ===== src/Snapshot/Pages.antt =====
-- crates/revoot-core/src/snapshot.rs: the evidence that every page of a listing was fetched.
pub mod Laws
use revoot.Prelude.{
  ℕ, ◌+◌, ◌%◌, ◌^◌, Bool, true, false, not, ◌&&◌, ◌||◌, Option, none, some, List, [], ◌∷◌, leb,
  ◌==◌, if◌then◌else◌, is_empty, length, saturating_add, u32_max, u64_max,
}
use revoot.Set.{Key, insert}

pub record PageReceipt : Type 0 where
  pub page_number : ℕ  -- u32
  pub item_count : ℕ  -- u32
  pub has_next_page : Bool

pub record PaginatedAcquisition (A : Type 0) : Type 0 where
  pub items : List A
  pub pages : List PageReceipt

pub data PaginationIssue : Type 0 where
  no_pages page_number_zero : PaginationIssue
  first_page_missing : (observed : ℕ) → PaginationIssue
  non_sequential_page : (expected observed : ℕ) → PaginationIssue
  page_after_terminal : (page_number : ℕ) → PaginationIssue
  continuation_not_fetched : (after_page : ℕ) → PaginationIssue
  item_count_mismatch : (receipts observed : ℕ) → PaginationIssue

-- The derived order compares the variants, then the fields. An issue is one text of a key.
abbrev pub issue_text : PaginationIssue → List ℕ
issue_text no_pages = 0 ∷ []
issue_text page_number_zero = 1 ∷ []
issue_text (first_page_missing o) = 2 ∷ o ∷ []
issue_text (non_sequential_page e o) = 3 ∷ e ∷ o ∷ []
issue_text (page_after_terminal n) = 4 ∷ n ∷ []
issue_text (continuation_not_fetched n) = 5 ∷ n ∷ []
issue_text (item_count_mismatch r o) = 6 ∷ r ∷ o ∷ []

abbrev pub issue_key : PaginationIssue → Key
issue_key i = issue_text i ∷ []

pub data PaginationCompleteness : Type 0 where
  complete : (pages items : ℕ) → PaginationCompleteness
  partial : (pages items : ℕ) → (reasons : List PaginationIssue) → PaginationCompleteness

abbrev pub add_issue_if : Bool → PaginationIssue → List PaginationIssue → List PaginationIssue
add_issue_if true i reasons = insert issue_key i reasons
add_issue_if false i reasons = reasons

-- one round of the loop over the pages, with the page before, if there is one
unfoldable pub page_issues :
    Option PageReceipt → PageReceipt → List PaginationIssue → List PaginationIssue
page_issues none page reasons =
    let reasons' = add_issue_if (page.page_number == 0) page_number_zero reasons in
    add_issue_if (not (page.page_number == 1)) (first_page_missing page.page_number) reasons'
page_issues (some previous) page reasons =
    let reasons1 = add_issue_if (page.page_number == 0) page_number_zero reasons in
    let reasons2 =
      add_issue_if (not previous.has_next_page) (page_after_terminal page.page_number) reasons1 in
    let expected = saturating_add u32_max previous.page_number 1 in
    add_issue_if (not (page.page_number == expected))
      (non_sequential_page expected page.page_number) reasons2

unfoldable pub check_pages :
    Option PageReceipt → List PageReceipt → List PaginationIssue → List PaginationIssue
unfolding page_issues
check_pages previous [] reasons = reasons
check_pages previous (page ∷ pages) reasons =
    check_pages (some page) pages (page_issues previous page reasons)

abbrev pub last_page : List PageReceipt → Option PageReceipt
last_page [] = none
last_page (p ∷ []) = some p
last_page (p ∷ q ∷ pages) = last_page (q ∷ pages)

abbrev pub check_last : Option PageReceipt → List PaginationIssue → List PaginationIssue
check_last none reasons = reasons
check_last (some last) reasons =
    add_issue_if last.has_next_page (continuation_not_fetched last.page_number) reasons

-- `sum::<u64>()`
abbrev pub sum_u64 : List PageReceipt → ℕ
sum_u64 [] = 0
sum_u64 (p ∷ pages) = (p.item_count + sum_u64 pages) % 2 ^ 64

-- `try_from(..).unwrap_or(MAX)`
abbrev pub clamp : ℕ → ℕ → ℕ
clamp top n = if leb n top then n else top

module _ {A : Type 0} where
  -- the reasons that `completeness` collects
  unfoldable pub pagination_issues : PaginatedAcquisition A → List PaginationIssue
  unfolding check_pages
  pagination_issues p =
      let start = add_issue_if (is_empty p.pages) no_pages [] in
      let reasons = check_last (last_page p.pages) (check_pages none p.pages start) in
      let observed = clamp u64_max (length p.items) in
      add_issue_if (not (sum_u64 p.pages == observed))
        (item_count_mismatch (sum_u64 p.pages) observed) reasons

  unfoldable pub completeness : PaginatedAcquisition A → PaginationCompleteness
  completeness p =
      let reasons = pagination_issues p in
      let pages = clamp u32_max (length p.pages) in
      let items = clamp u64_max (length p.items) in
      if is_empty reasons then complete pages items else partial pages items reasons
