-- ===== src/Paged/Lookup/Answer.antt =====
-- The lookup in a paged index (source_codes/stardictd/src/lib/stddict.cpp, `offset_index::lookup`
-- and `synonym_file::lookup`), over every well-formed file whose keys ascend.
use stardictd.Base.{
  ℕ, zero, suc, ◌+◌, ◌*◌, ◌-◌, ◌≤◌, ◌≡◌, ◌≢◌, refl, ◌∙◌, sym, ap, arith, List, some, none, Option,
  Bytes, length, false, ◌>>=◌,
}
use stardictd.Base.Int.{pos}
use stardictd.Compare.Order.{IsOrder, gt_of_le, lt_of_le}
use stardictd.Compare.{Ordering, Comparison}
use stardictd.IdxFile.Layout.{IsNetworkOrder}
use stardictd.Lookup.Search.{IsSorted, Splits, Finds, search-Finds}
use stardictd.Lookup.{LookupResult, Outcome, hit, miss, search, invalid_index}
use stardictd.Paged.Lookup.InPage.{Located, IsAscending, Answers, Narrowed, conclude_paged-Answers}
use stardictd.Paged.Lookup.Suggestion.{load_page-IsAt}
use stardictd.Paged.Lookup.{entry_key, within_page, lookup, conclude_paged}
use stardictd.Paged.Opened.Keys.{key_at}
use stardictd.Paged.Opened.Loaded.{HasKeys, get_first_lem, last_page}
use stardictd.Paged.Opened.{IsDictionary, IsOpen, page_of, page_count_lem}
use stardictd.Paged.{PageEntry, Paged, get_first_on_page_key, load_page}

module _ (g_ntohl : ℕ → ℕ) (fields : ℕ) (cmp : Comparison) (prefix_match : Bytes → Bytes → ℕ)
    (str : Bytes) where
  within_page_step :
      (s t : Paged) (p from n : ℕ)
      → load_page g_ntohl fields s p ≡ some (t, n)
      → within_page g_ntohl fields cmp prefix_match str s (miss from (suc p)) ≡ (
          search cmp (entry_key t) str (n + 1) 1 n
          >>= conclude_paged g_ntohl fields cmp prefix_match str t p)
  unfolding within_page
  within_page_step s t p from n runs = rw runs

module _ (g_ntohl : ℕ → ℕ) (law : IsNetworkOrder g_ntohl) {fields : ℕ} {xs : List PageEntry}
    (d : IsDictionary fields xs) {cmp : Comparison} (order : IsOrder cmp)
    (ascends : IsAscending cmp xs) (prefix_match : Bytes → Bytes → ℕ) (str : Bytes) where
  abbrev Answered : Option (Paged × LookupResult) → Type 0
  Answered = Answers g_ntohl law d order ascends prefix_match str

  abbrev first_key : ℕ → Bytes
  first_key p = key_at xs (32 * p)

  module _ (s : Paged) (o : IsOpen xs s) (k : HasKeys xs s) where
    -- The first keys of the pages ascend too.
    pages-IsSorted :
        (count : ℕ)
        → count ≡ last_page xs + 1
        → IsSorted cmp (get_first_on_page_key fields s) first_key count
    pages-IsSorted count e = record {
      reads = λ p lt. get_first_lem s p d o k (omega (arith, d.has_entry));
      ascends = λ p q le lt. ascends (32 * p) (32 * q) (omega arith) (omega (arith, d.has_entry));
    }

    narrow :
        (p count : ℕ)
        → count ≡ last_page xs + 1
        → suc p ≤ count
        → Splits cmp first_key count str (suc p)
        → cmp str (key_at xs (length xs - 1)) ≢ Ordering.gt
        → Narrowed g_ntohl law d order ascends prefix_match str p
    narrow p count e le sp not_past = record {
      inside = omega (arith, d.has_entry);
      behind = sp.0 p (omega arith);
      ahead = λ lt. rw (suc_place p) (sp.1 (suc p) (omega arith) (omega arith));
      not_past = not_past;
    }
      where
        suc_place : (q : ℕ) → q + 1 ≡ suc q
        suc_place q = omega arith

    by_outcome :
        (count : ℕ) (out : Option Outcome)
        → count ≡ last_page xs + 1
        → Finds cmp first_key count str 0 count out
        → cmp str (key_at xs 0) ≢ Ordering.lt
        → cmp str (key_at xs (length xs - 1)) ≢ Ordering.gt
        → Answered (out >>= within_page g_ntohl fields cmp prefix_match str s)
    unfolding within_page
    by_outcome count none e f not_before not_past = absurd f
    by_outcome count (some (hit m)) e f not_before not_past =
        let place : m * 32 ≡ 32 * m = omega arith in
        (
          s,
          _,
          refl,
          o,
          k,
          Located.at (m * 32) (omega (arith, d.has_entry))
              (ap (key_at xs) place ∙ sym (order.identical str (first_key m) f.2)) refl,
        )
    by_outcome count (some (miss from zero)) e f not_before not_past =
        absurd (not_before (f.3.1 0 (omega (arith, f.2)) (omega arith)))
    by_outcome count (some (miss from (suc p))) e f not_before not_past =
        let n = narrow p count e (omega (arith, f.1, f.2)) (rw f.2 at f.3) not_past in
        let (t, runs, at) = load_page-IsAt g_ntohl law d s p o k n.inside in
        rw
          (within_page_step g_ntohl fields cmp prefix_match str s t p from (length (page_of xs p))
            runs)
          (conclude_paged-Answers g_ntohl law d order ascends prefix_match str t p at n)

    searched :
        cmp str (key_at xs 0) ≢ Ordering.lt
        → cmp str (key_at xs (length xs - 1)) ≢ Ordering.gt
        → Answered (
            search cmp (get_first_on_page_key fields s) str (s.npages + 1) 0 (s.npages - 1)
            >>= within_page g_ntohl fields cmp prefix_match str s)
    searched not_before not_past =
        let count : s.npages - 1 ≡ last_page xs + 1 = omega (arith, o.pages, page_count_lem d) in
        by_outcome (s.npages - 1) _ count
          (search-Finds order (get_first_on_page_key fields s) first_key (s.npages - 1)
            (pages-IsSorted (s.npages - 1) count) str (s.npages + 1) 0 (s.npages - 1) (omega arith)
            (omega arith) (omega arith) (λ i lt. absurd (omega arith))
            (λ i le lt. absurd (omega arith)))
          not_before not_past

    by_last :
        (c : Ordering)
        → cmp str (key_at xs (length xs - 1)) ≡ c
        → cmp str (key_at xs 0) ≢ Ordering.lt
        → Answered (elim c [
          | Ordering.gt ↦ some (
            s,
            record { found = false; idx = invalid_index; idx_suggest = pos (s.wordcount - 1) },
          )
          | _ ↦
              search cmp (get_first_on_page_key fields s) str (s.npages + 1) 0 (s.npages - 1)
              >>= within_page g_ntohl fields cmp prefix_match str s
        ])
    by_last Ordering.gt e not_before =
        let size : s.wordcount - 1 ≡ length xs - 1 = omega (arith, o.count) in
        (
          s,
          _,
          refl,
          o,
          k,
          Located.past
              (
                λ i lt.
                    gt_of_le order str (key_at xs i) (key_at xs (length xs - 1)) e
                      (ascends i (length xs - 1) (omega arith) (omega arith)),
                λ i le lt. absurd (omega arith),
              )
              (ap (λ n. record { found = false; idx = invalid_index; idx_suggest = pos n }) size),
        )
    by_last Ordering.lt e not_before = searched not_before (λ h. cc)
    by_last Ordering.eq e not_before = searched not_before (λ h. cc)

    by_first :
        (c : Ordering) (rest : Option (Paged × LookupResult))
        → cmp str (key_at xs 0) ≡ c
        → (c ≢ Ordering.lt → Answered rest)
        → Answered (elim c [
          | Ordering.lt ↦ some (s, record { found = false; idx = pos 0; idx_suggest = pos 0 })
          | _ ↦ rest
        ])
    by_first Ordering.lt rest e answered = (
      s,
      _,
      refl,
      o,
      k,
      Located.before
          (
            λ i lt. absurd (omega arith),
            λ i le lt.
                lt_of_le order str (key_at xs 0) (key_at xs i) e (ascends 0 i (omega arith) lt),
          )
          refl,
    )
    by_first Ordering.gt rest e answered = answered (λ h. cc)
    by_first Ordering.eq rest e answered = answered (λ h. cc)

    -- From any state of the open index every lookup returns, leaves the index open, and answers
    -- right: the word's index, or its place among the keys; with the suggestion that `Located` tells.
    pub lookup-Located : Answered (lookup g_ntohl fields cmp prefix_match str s)
    unfolding lookup
    lookup-Located =
        let first : s.first.keystr ≡ key_at xs 0 = ap (λ r. r.keystr) k.at_first in
        let last : s.real_last.keystr ≡ key_at xs (length xs - 1) = ap (λ r. r.keystr) k.at_end in
        by_first (cmp str s.first.keystr) _ (ap (cmp str) (sym first)) (λ h.
          by_last (cmp str s.real_last.keystr) (ap (cmp str) (sym last))
            (λ lt. h (ap (cmp str) first ∙ lt)))
