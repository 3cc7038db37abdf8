-- ===== src/Snapshot/Pages/Laws.antt =====
-- crates/revoot-core/src/snapshot.rs: when a listing is complete.
use revoot.Prelude.{
  ℕ, suc, ◌+◌, ◌≤◌, ◌≡◌, ◌↔◌, refl, sym, ◌∙◌, Bool, true, false, not, ◌&&◌, Option, none, some,
  List, [], ◌∷◌, arith, ◌==◌, if◌then◌else◌, is_empty, length, saturating_add, u32_max, u64_max,
}
use revoot.Set.Laws.{is_empty-insert}
use revoot.Snapshot.Pages.{
  PageReceipt, PaginatedAcquisition, PaginationIssue, issue_key, complete, partial, add_issue_if,
  page_issues, check_pages, last_page, check_last, sum_u64, clamp, pagination_issues, completeness,
}

is_empty-add_issue_if :
    (b : Bool) (i : PaginationIssue) (s : List PaginationIssue)
    → is_empty (add_issue_if b i s) ≡ not b && is_empty s
is_empty-add_issue_if true i s = is_empty-insert issue_key i s
is_empty-add_issue_if false i s = refl

-- a page that fits the one before it
abbrev pub follows : Option PageReceipt → PageReceipt → Bool
follows none page = page.page_number == 1
follows (some previous) page =
    not (page.page_number == 0)
    && previous.has_next_page
    && page.page_number == saturating_add u32_max previous.page_number 1

abbrev all_follow : Option PageReceipt → List PageReceipt → Bool
all_follow previous [] = true
all_follow previous (page ∷ pages) = follows previous page && all_follow (some page) pages

reorder : (x y z w : Bool) → not (not z) && (not (not y) && (not x && w)) ≡ (not x && y && z) && w
reorder x y z w = ground arith

is_empty-page_issues :
    (o : Option PageReceipt) (p : PageReceipt) (s : List PaginationIssue)
    → is_empty (page_issues o p s) ≡ follows o p && is_empty s
unfolding page_issues
is_empty-page_issues none p s = ground (
  arith,
  is_empty-add_issue_if (not (p.page_number == 1))
      (PaginationIssue.first_page_missing p.page_number)
      (add_issue_if (p.page_number == 0) PaginationIssue.page_number_zero s),
  is_empty-add_issue_if (p.page_number == 0) PaginationIssue.page_number_zero s,
)
is_empty-page_issues (some q) p s =
    let s1 = add_issue_if (p.page_number == 0) PaginationIssue.page_number_zero s in
    let s2 =
      add_issue_if (not q.has_next_page) (PaginationIssue.page_after_terminal p.page_number) s1 in
    let e = saturating_add u32_max q.page_number 1 in
    let a =
      is_empty-add_issue_if (not (p.page_number == e))
        (PaginationIssue.non_sequential_page e p.page_number) s2 in
    let b =
      is_empty-add_issue_if (not q.has_next_page)
        (PaginationIssue.page_after_terminal p.page_number) s1 in
    let c = is_empty-add_issue_if (p.page_number == 0) PaginationIssue.page_number_zero s in
    a ∙ rw (b, c) (reorder (p.page_number == 0) q.has_next_page (p.page_number == e) (is_empty s))

is_empty-check_pages :
    (o : Option PageReceipt) (ps : List PageReceipt) (s : List PaginationIssue)
    → is_empty (check_pages o ps s) ≡ all_follow o ps && is_empty s
unfolding check_pages
is_empty-check_pages o [] s = refl
is_empty-check_pages o (p ∷ ps) s =
    is_empty-check_pages (some p) ps (page_issues o p s)
    ∙ ground (arith, is_empty-page_issues o p s)

-- Pages numbered from `n` on, all but the last with a page after them.
abbrev pub IsContiguous : ℕ → List PageReceipt → Type 0
IsContiguous n [] = ⊥
IsContiguous n (p ∷ []) = (p.page_number ≡ n) × (p.has_next_page ≡ false)
IsContiguous n (p ∷ q ∷ ps) =
    (p.page_number ≡ n) × (p.has_next_page ≡ true) × IsContiguous (suc n) (q ∷ ps)

abbrev total_items : List PageReceipt → ℕ
total_items [] = 0
total_items (p ∷ ps) = p.item_count + total_items ps

abbrev last_ok : Option PageReceipt → Bool
last_ok none = true
last_ok (some p) = not p.has_next_page

contiguous_head :
    (n : ℕ) (p : PageReceipt) (ps : List PageReceipt) → IsContiguous n (p ∷ ps) → p.page_number ≡ n
contiguous_head n p [] c = c.0
contiguous_head n p (q ∷ ps) c = c.0

IsContiguous-iff :
    (n : ℕ) (p : PageReceipt) (ps : List PageReceipt)
    → 1 ≤ n
    → n + length ps ≤ u32_max
    → p.page_number ≡ n
    → (all_follow (some p) ps && last_ok (last_page (p ∷ ps)) ≡ true) ↔ IsContiguous n (p ∷ ps)
IsContiguous-iff n p [] low high at = ground (arith, at)
IsContiguous-iff n p (q ∷ ps) low high at = (
  λ h.
      let next : q.page_number ≡ suc n = ground (arith, at, h) in
      let later = IsContiguous-iff (suc n) q ps (omega arith) (omega (arith, high)) next in
      (at, ground (arith, h), later.0 (ground (arith, h))),
  λ c.
      let next : q.page_number ≡ suc n = contiguous_head (suc n) q ps c.2 in
      let later = IsContiguous-iff (suc n) q ps (omega arith) (omega (arith, high)) next in
      let rest = later.1 c.2 in
      let fits : saturating_add u32_max p.page_number 1 ≡ suc n = ground (arith, at, high) in
      ground (arith, at, c.1, rest, next, fits),
)

total_items-sum : (ps : List PageReceipt) → total_items ps ≤ u64_max → sum_u64 ps ≡ total_items ps
total_items-sum [] h = refl
total_items-sum (p ∷ ps) h = omega (arith, total_items-sum ps (omega (arith, h)))

is_empty-check_last :
    (o : Option PageReceipt) (s : List PaginationIssue)
    → is_empty (check_last o s) ≡ last_ok o && is_empty s
is_empty-check_last none s = refl
is_empty-check_last (some p) s =
    is_empty-add_issue_if p.has_next_page (PaginationIssue.continuation_not_fetched p.page_number) s

is_empty-pagination_issues :
    {A : Type 0} (p : PaginatedAcquisition A)
    → is_empty (pagination_issues p)
      ≡ (sum_u64 p.pages == clamp u64_max (length p.items))
        && (last_ok (last_page p.pages) && (all_follow none p.pages && not (is_empty p.pages)))
unfolding pagination_issues
is_empty-pagination_issues p =
    let start = add_issue_if (is_empty p.pages) PaginationIssue.no_pages [] in
    let a = is_empty-add_issue_if (is_empty p.pages) PaginationIssue.no_pages [] in
    let b = is_empty-check_pages none p.pages start in
    let c = is_empty-check_last (last_page p.pages) (check_pages none p.pages start) in
    let observed = clamp u64_max (length p.items) in
    let d =
      is_empty-add_issue_if (not (sum_u64 p.pages == observed))
        (PaginationIssue.item_count_mismatch (sum_u64 p.pages) observed)
        (check_last (last_page p.pages) (check_pages none p.pages start)) in
    d ∙ ground (arith, a, b, c)

-- the four conditions of a complete listing
sequential_pages :
    (ps : List PageReceipt)
    → length ps ≤ u32_max
    → (last_ok (last_page ps) && (all_follow none ps && not (is_empty ps)) ≡ true)
      ↔ IsContiguous 1 ps
sequential_pages [] few = ground arith
sequential_pages (p ∷ ps) few = (
  λ h.
      let at : p.page_number ≡ 1 = ground (arith, h) in
      (IsContiguous-iff 1 p ps (omega arith) (omega (arith, few)) at).0 (ground (arith, h)),
  λ c.
      let at = contiguous_head 1 p ps c in
      let rest = (IsContiguous-iff 1 p ps (omega arith) (omega (arith, few)) at).1 c in
      ground (arith, at, rest),
)

complete_if_empty :
    (b : Bool) (m n : ℕ) (reasons : List PaginationIssue)
    → ((if b then complete m n else partial m n reasons) ≡ complete m n) ↔ (b ≡ true)
complete_if_empty true m n reasons = (λ h. refl, λ h. refl)
complete_if_empty false m n reasons = (λ h. cc, λ h. cc)

-- Where the counts fit their types, a listing is complete exactly when its pages are numbered from 1
-- on with none left out, just the last says that there is no next one, and the pages count the
-- items that were taken; it is then reported with these counts.
pub completeness-complete_iff :
    {A : Type 0} (p : PaginatedAcquisition A)
    → length p.pages ≤ u32_max
    → length p.items ≤ u64_max
    → total_items p.pages ≤ u64_max
    → (completeness p ≡ complete (length p.pages) (length p.items))
      ↔ (IsContiguous 1 p.pages × (total_items p.pages ≡ length p.items))
unfolding completeness
completeness-complete_iff p few held fit =
    let clamp_pages : clamp u32_max (length p.pages) ≡ length p.pages = ground (arith, few) in
    let clamp_items : clamp u64_max (length p.items) ≡ length p.items = ground (arith, held) in
    let sum = total_items-sum p.pages fit in
    let empty = is_empty-pagination_issues p in
    let contiguous = sequential_pages p.pages few in
    let made =
      complete_if_empty (is_empty (pagination_issues p)) (length p.pages) (length p.items)
        (pagination_issues p) in
    (
      λ h.
          let e = made.0 (rw (clamp_pages, clamp_items) at h) in
          let all_four = sym empty ∙ e in
          (contiguous.0 (ground (arith, all_four)), ground (arith, all_four, sum, clamp_items)),
      λ h.
          let pages_ok = contiguous.1 h.0 in
          let e : is_empty (pagination_issues p) ≡ true =
            empty ∙ ground (arith, pages_ok, sum, clamp_items, h) in
          rw (clamp_pages, clamp_items) (made.1 e),
    )
