-- ===== src/Paged/Lookup/InPage.antt =====
-- What a lookup in a paged index answers, and the part of it that runs within one page
-- (source_codes/stardictd/src/lib/stddict.cpp).
use native.Mathlib.Decide.{dec_lt, ℕ_discrete}
use stardictd.Base.{
  ℕ, ◌+◌, ◌*◌, ◌-◌, ◌/◌, ◌%◌, ◌<◌, ◌≤◌, ◌≡◌, ◌≢◌, refl, ◌∙◌, sym, ap, arith, List, some, none,
  Option, Bytes, length, true, false, ◌>>=◌, length-take, length-drop, drop,
}
use stardictd.Base.Int.{pos}
use stardictd.Compare.Order.{IsOrder, gt_of_le, lt_of_le}
use stardictd.Compare.{Ordering, Comparison}
use stardictd.IdxFile.Layout.{IsNetworkOrder}
use stardictd.Lookup.Search.{IsSorted, Splits, Finds, search-Finds}
use stardictd.Lookup.Suggest.{Suggests, suggest-Suggests}
use stardictd.Lookup.{LookupResult, Outcome, hit, miss, search, suggest, invalid_index}
use stardictd.Paged.Lookup.Suggestion.{IsAt, entry_key_lem, suggest_paged-suggest}
use stardictd.Paged.Lookup.{entry_key, conclude_paged}
use stardictd.Paged.Opened.Keys.{key_at}
use stardictd.Paged.Opened.Loaded.{HasKeys}
use stardictd.Paged.Opened.{IsDictionary, IsOpen, page_of, length-page_of}
use stardictd.Paged.{PageEntry, Paged}

-- The answers: the word's index; below the first key; between two keys; behind the last key.
-- Between two keys the suggestion is the right one, except where the place is the first of a page:
-- there the scan starts from the match of the first key of the page before.
pub data Located (cmp : Comparison) (prefix_match : Bytes → Bytes → ℕ) (xs : List PageEntry)
    (str : Bytes) (r : LookupResult) : Type 0 where
  at :
      (m : ℕ)
      → m < length xs
      → key_at xs m ≡ str
      → r ≡ record { found = true; idx = pos m; idx_suggest = pos m }
      → Located cmp prefix_match xs str r
  before :
      Splits cmp (key_at xs) (length xs) str 0
      → r ≡ record { found = false; idx = pos 0; idx_suggest = pos 0 }
      → Located cmp prefix_match xs str r
  between :
      (from s : ℕ)
      → 0 < from
      → from < length xs
      → Splits cmp (key_at xs) (length xs) str from
      → (from % 32 ≢ 0 → Suggests (λ i. prefix_match str (key_at xs i)) from s)
      → (from % 32 ≡ 0
          → suggest prefix_match
              (λ i. some (key_at xs i))
              str
              from
              (prefix_match str (key_at xs (from - 32)))
            ≡ some s)
      → r ≡ record { found = false; idx = pos from; idx_suggest = pos s }
      → Located cmp prefix_match xs str r
  past :
      Splits cmp (key_at xs) (length xs) str (length xs)
      → r ≡ record { found = false; idx = invalid_index; idx_suggest = pos (length xs - 1) }
      → Located cmp prefix_match xs str r

-- The keys ascend.
abbrev pub IsAscending : Comparison → List PageEntry → Type 0
IsAscending cmp xs =
    (i j : ℕ) → i ≤ j → j < length xs → cmp (key_at xs i) (key_at xs j) ≢ Ordering.gt

module _ (g_ntohl : ℕ → ℕ) (law : IsNetworkOrder g_ntohl) {fields : ℕ} {xs : List PageEntry}
    (d : IsDictionary fields xs) {cmp : Comparison} (order : IsOrder cmp)
    (ascends : IsAscending cmp xs) (prefix_match : Bytes → Bytes → ℕ) (str : Bytes) where
  abbrev pub Answers : Option (Paged × LookupResult) → Type 0
  Answers o =
      (t : Paged) × (r : LookupResult) × (o ≡ some (t, r))
      × IsOpen xs t
      × HasKeys xs t
      × Located cmp prefix_match xs str r

  -- The keys of page `p`, from its first.
  abbrev page_key : ℕ → ℕ → Bytes
  page_key p i = key_at xs (32 * p + i)

  page_length : (p : ℕ) → 32 * p < length xs → length (page_of xs p) ≤ length xs - 32 * p
  page_length p lt = omega (arith, length-take 32 (drop (32 * p) xs), length-drop (32 * p) xs)

  page-IsSorted :
      (s : Paged) (p : ℕ)
      → IsAt xs p s
      → 32 * p < length xs
      → IsSorted cmp (entry_key s) (page_key p) (length (page_of xs p))
  page-IsSorted s p a lt = record {
    reads = λ i inside.
        entry_key_lem s p i (32 * p + i) a refl (omega (arith, length-page_of xs p lt))
          (omega (arith, page_length p lt));
    ascends = λ i j le inside.
        ascends (32 * p + i) (32 * p + j) (omega arith) (omega (arith, page_length p lt));
  }

  -- What is known when the search within page `p` begins: the word is behind the page's first key,
  -- before the next page's, and not behind the last key of all.
  pub record Narrowed (p : ℕ) : Type 0 where
    pub inside : 32 * p < length xs
    pub behind : cmp str (key_at xs (32 * p)) ≡ Ordering.gt
    pub ahead : 32 * (p + 1) < length xs → cmp str (key_at xs (32 * (p + 1))) ≡ Ordering.lt
    pub not_past : cmp str (key_at xs (length xs - 1)) ≢ Ordering.gt

  page_search :
      (s : Paged) (p : ℕ)
      → IsAt xs p s
      → Narrowed p
      → Finds cmp
          (page_key p)
          (length (page_of xs p))
          str
          1
          (length (page_of xs p))
          (search cmp (entry_key s) str (length (page_of xs p) + 1) 1 (length (page_of xs p)))
  page_search s p a n =
      search-Finds order (entry_key s) (page_key p) (length (page_of xs p))
        (page-IsSorted s p a n.inside) str (length (page_of xs p) + 1) 1 (length (page_of xs p))
        (omega arith)
        (omega (arith, n.inside, length-take 32 (drop (32 * p) xs), length-drop (32 * p) xs))
        (omega arith) (λ i lt. let first : 32 * p + i ≡ 32 * p = omega arith in rw first n.behind)
        (λ i le lt. absurd (omega arith))

  module _ (p f : ℕ) (n : Narrowed p) (first : 1 ≤ f) (le : f ≤ length (page_of xs p))
      (sp : Splits cmp (page_key p) (length (page_of xs p)) str f) where
    all_below : (i : ℕ) → i < 32 * p + f → cmp str (key_at xs i) ≡ Ordering.gt
    all_below i lt =
        gt_of_le order str (key_at xs i) (page_key p (f - 1)) (sp.0 (f - 1) (omega arith))
          (ascends i (32 * p + (f - 1)) (omega arith) (omega (arith, page_length p n.inside)))

    place_inside : 32 * p + f < length xs
    place_inside = elim (dec_lt (32 * p + f) (length xs)) [
      | yes lt ↦ lt
      | no end ↦ absurd (n.not_past (all_below (length xs - 1) (omega (arith, n.inside))))
    ]

    all_above : (i : ℕ) → 32 * p + f ≤ i → i < length xs → cmp str (key_at xs i) ≡ Ordering.lt
    all_above i ge lt = elim (dec_lt f (length (page_of xs p))) [
      | yes within ↦
          lt_of_le order str (page_key p f) (key_at xs i) (sp.1 f (omega arith) within)
            (ascends (32 * p + f) i ge lt)
      | no end ↦
          let sizes : 32 * (p + 1) ≤ i =
            omega
              (arith, place_inside, length-take 32 (drop (32 * p) xs), length-drop (32 * p) xs) in
          lt_of_le order str (key_at xs (32 * (p + 1))) (key_at xs i) (n.ahead (omega arith))
            (ascends (32 * (p + 1)) i sizes lt)
    ]

    -- The place within the page is the place in the whole index.
    whole_split : Splits cmp (key_at xs) (length xs) str (32 * p + f)
    whole_split = (all_below, all_above)

  -- The key that the scan starts from: the key at the place, or the page's first one.
  start_key : ℕ → ℕ → Bytes
  start_key p f = elim (ℕ_discrete f 32) [
    | yes _ ↦ key_at xs (32 * p)
    | no _ ↦ key_at xs (32 * p + f)
  ]

  start_key_lem :
      (s : Paged) (p f : ℕ)
      → IsAt xs p s
      → f ≤ 32
      → 32 * p + f < length xs
      → entry_key s ((p * 32 + f) % 32) ≡ some (start_key p f)
  unfolding start_key
  start_key_lem s p f a le lt =
      elim (ℕ_discrete f 32)
        as (λ q.
          entry_key s ((p * 32 + f) % 32)
          ≡ some (elim q [ yes _ ↦ key_at xs (32 * p) | no _ ↦ key_at xs (32 * p + f) ])) [
            | yes full ↦
                entry_key_lem s p ((p * 32 + f) % 32) (32 * p) a (omega arith) (omega arith)
                  (omega arith)
            | no part ↦
                entry_key_lem s p ((p * 32 + f) % 32) (32 * p + f) a (omega arith) (omega arith) lt
          ]

  start_key_here : (p f : ℕ) → f ≢ 32 → start_key p f ≡ key_at xs (32 * p + f)
  unfolding start_key
  start_key_here p f ne =
      elim (ℕ_discrete f 32)
        as (λ q.
          elim q [ yes _ ↦ key_at xs (32 * p) | no _ ↦ key_at xs (32 * p + f) ]
          ≡ key_at xs (32 * p + f)) [ yes e ↦ absurd (ne e) | no _ ↦ refl ]

  start_key_next : (p f : ℕ) → f ≡ 32 → start_key p f ≡ key_at xs (32 * p + f - 32)
  unfolding start_key
  start_key_next p f e =
      elim (ℕ_discrete f 32)
        as (λ q.
          elim q [ yes _ ↦ key_at xs (32 * p) | no _ ↦ key_at xs (32 * p + f) ]
          ≡ key_at xs (32 * p + f - 32)) [
            | yes _ ↦ ap (key_at xs) (omega arith)
            | no ne ↦ absurd (ne e)
          ]

  -- A hit within the page is a hit at the place of that entry.
  hit-Answers :
      (s : Paged) (p m : ℕ)
      → IsAt xs p s
      → Narrowed p
      → m < length (page_of xs p)
      → cmp str (page_key p m) ≡ Ordering.eq
      → Answers (conclude_paged g_ntohl fields cmp prefix_match str s p (hit m))
  unfolding conclude_paged
  hit-Answers s p m a n lt e =
      let place : p * 32 + m ≡ 32 * p + m = omega arith in
      (
        s,
        _,
        refl,
        a.is_open,
        a.has_keys,
        Located.at (p * 32 + m) (omega (arith, page_length p n.inside))
            (ap (key_at xs) place ∙ sym (order.identical str (page_key p m) e)) refl,
      )

  -- The scan's suggestion, where the place is not the first of a page.
  scan-Suggests :
      (from v : ℕ) (best : ℕ)
      → best ≡ prefix_match str (key_at xs from)
      → suggest prefix_match (λ i. some (key_at xs i)) str from best ≡ some v
      → Suggests (λ i. prefix_match str (key_at xs i)) from v
  scan-Suggests from v best e runs =
      let (w, runs', good) =
        suggest-Suggests prefix_match (λ i. some (key_at xs i)) (key_at xs) str from best
          (λ i lt. refl) e in
      let same : w ≡ v = cc (runs, runs') in rw same at good

  miss-Answers :
      (s : Paged) (p f end : ℕ)
      → IsAt xs p s
      → Narrowed p
      → 1 ≤ f
      → f ≤ length (page_of xs p)
      → Splits cmp (page_key p) (length (page_of xs p)) str f
      → Answers (conclude_paged g_ntohl fields cmp prefix_match str s p (miss f end))
  unfolding conclude_paged
  miss-Answers s p f end a n first le sp =
      let place : 32 * p + f ≡ p * 32 + f = omega arith in
      let inside = place_inside p f n first le sp in
      let short : f ≤ 32 = omega (arith, length-page_of xs p n.inside) in
      let best = prefix_match str (start_key p f) in
      let (t, v, runs, flat_runs, open_t, keys_t) =
        suggest_paged-suggest g_ntohl law d cmp prefix_match str s (p * 32 + f) best a.is_open
          a.has_keys (omega arith)
          (λ h. let same : p ≡ (p * 32 + f) / 32 = omega arith in a.page ∙ ap (page_of xs) same) in
      (
        t,
        record { found = false; idx = pos (p * 32 + f); idx_suggest = pos v },
        rw (start_key_lem s p f a short inside) (rw runs),
        open_t,
        keys_t,
        Located.between (p * 32 + f) v (omega arith) (omega arith)
            (rw place at (whole_split p f n first le sp))
            (λ h.
              scan-Suggests (p * 32 + f) v best
                (ap (prefix_match str) (start_key_here p f (omega arith) ∙ ap (key_at xs) place))
                flat_runs)
            (λ h.
              let back : key_at xs (p * 32 + f - 32) ≡ start_key p f =
                ap (λ q. key_at xs (q - 32)) (sym place) ∙ sym (start_key_next p f (omega arith)) in
              rw back flat_runs)
            refl,
      )

  -- The search within the page and what follows it give the answer.
  pub conclude_paged-Answers :
      (s : Paged) (p : ℕ)
      → IsAt xs p s
      → Narrowed p
      → Answers (
          search cmp (entry_key s) str (length (page_of xs p) + 1) 1 (length (page_of xs p))
          >>= conclude_paged g_ntohl fields cmp prefix_match str s p)
  conclude_paged-Answers s p a n =
      by_outcome
        (search cmp (entry_key s) str (length (page_of xs p) + 1) 1 (length (page_of xs p)))
        (page_search s p a n)
    where
      by_outcome :
          (o : Option Outcome)
          → Finds cmp (page_key p) (length (page_of xs p)) str 1 (length (page_of xs p)) o
          → Answers (o >>= conclude_paged g_ntohl fields cmp prefix_match str s p)
      by_outcome none f = absurd f
      by_outcome (some (hit m)) f = hit-Answers s p m a n f.1 f.2
      by_outcome (some (miss from end)) f = miss-Answers s p from end a n f.0 f.1 f.3
