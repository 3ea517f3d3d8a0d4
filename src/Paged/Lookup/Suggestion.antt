-- ===== src/Paged/Lookup/Suggestion.antt =====
-- The suggestion's scan over pages is the flat scan: it reads the same keys, and loads each page
-- before its entries are read (source_codes/stardictd/src/lib/stddict.cpp).
use stardictd.Base.{
  ℕ, zero, suc, ◌+◌, ◌*◌, ◌/◌, ◌%◌, ◌<◌, ◌≤◌, ◌≡◌, ◌≢◌, refl, ◌∙◌, ap, arith, List, some, Option,
  Bytes, length, ◌==◌, ◌||◌, ltb, if◌then◌else◌, Bool-cases, inl, inr,
}
use stardictd.Compare.{Comparison}
use stardictd.IdxFile.Layout.{IsNetworkOrder}
use stardictd.Lookup.{suggest}
use stardictd.Paged.Lookup.{entry_key, suggest_paged}
use stardictd.Paged.Opened.Keys.{key_at, get_elem?-page_of}
use stardictd.Paged.Opened.Loaded.{HasKeys}
use stardictd.Paged.Opened.{IsDictionary, IsOpen, Loads, load_page_lem, page_of}
use stardictd.Paged.{PageEntry, Paged, entr_per_page, load_page}

-- An open index with its keys, and page `p` in memory.
pub record IsAt (xs : List PageEntry) (p : ℕ) (s : Paged) : Type 0 where
  pub is_open : IsOpen xs s
  pub has_keys : HasKeys xs s
  pub page : s.entries ≡ page_of xs p

pub entry_key_lem :
    {xs : List PageEntry} (s : Paged) (p r i : ℕ)
    → IsAt xs p s
    → i ≡ 32 * p + r
    → r < 32
    → i < length xs
    → entry_key s r ≡ some (key_at xs i)
entry_key_lem {xs} s p r i a e lt inside = rw (a.page) (rw (get_elem?-page_of xs p r i e lt inside))

module _ (g_ntohl : ℕ → ℕ) (law : IsNetworkOrder g_ntohl) {fields : ℕ} {xs : List PageEntry}
    (d : IsDictionary fields xs) where
  pub HasKeys-Loads :
      {s t : Paged} {p : ℕ} → HasKeys xs s → Loads g_ntohl law d s t p → HasKeys xs t
  HasKeys-Loads k l = record {
    at_first = ap (λ r. r.first) l.changes ∙ k.at_first;
    at_last = ap (λ r. r.last) l.changes ∙ k.at_last;
    at_middle = ap (λ r. r.middle) l.changes ∙ k.at_middle;
    at_end = ap (λ r. r.real_last) l.changes ∙ k.at_end;
  }

  pub load_page-IsAt :
      (s : Paged) (p : ℕ)
      → IsOpen xs s
      → HasKeys xs s
      → 32 * p < length xs
      → (t : Paged) × (load_page g_ntohl fields s p ≡ some (t, length (page_of xs p))) × IsAt xs p t
  load_page-IsAt s p o k lt =
      let (t, runs, loads) = load_page_lem g_ntohl law d s p o lt in
      (
        t,
        runs,
        record { is_open = loads.still_open; has_keys = HasKeys-Loads k loads; page = loads.holds },
      )

  module _ (cmp : Comparison) (prefix_match : Bytes → Bytes → ℕ) (str : Bytes) where
    abbrev pub flat : ℕ → Option Bytes
    flat i = some (key_at xs i)

    -- The page of entry `i` is in memory behind the test of the loop.
    turn_page :
        (s : Paged) (i : ℕ)
        → IsOpen xs s
        → HasKeys xs s
        → i < length xs
        → (suc i % 32 ≢ 0 → s.entries ≡ page_of xs (suc i / 32))
        → (t : Paged) × (n : ℕ) × ((if suc i % entr_per_page == 0
              then load_page g_ntohl fields s (i / entr_per_page)
              else some (s, 0))
            ≡ some (t, n))
          × IsAt xs (i / 32) t
    turn_page s i o k lt page = elim (Bool-cases (suc i % entr_per_page == 0)) [
      | inl turns ↦
          let (t, runs, at) = load_page-IsAt s (i / 32) o k (omega arith) in
          (t, length (page_of xs (i / 32)), rw turns runs, at)
      | inr stays ↦
          let same : suc i / 32 ≡ i / 32 = ground arith in
          let kept : s.entries ≡ page_of xs (i / 32) = page (ground arith) ∙ ap (page_of xs) same in
          (s, 0, rw stays, record { is_open = o; has_keys = k; page = kept })
    ]

    abbrev Refines : Paged → ℕ → ℕ → Type 0
    Refines s from best =
        (t : Paged) × (v : ℕ) × (suggest_paged g_ntohl fields cmp prefix_match str s from best
          ≡ some (t, v))
        × (suggest prefix_match flat str from best ≡ some v)
        × IsOpen xs t
        × HasKeys xs t

    -- Wherever it starts, the paged scan gives the suggestion of the flat scan over the same keys.
    pub suggest_paged-suggest :
        (s : Paged) (from best : ℕ)
        → IsOpen xs s
        → HasKeys xs s
        → from ≤ length xs
        → (from % 32 ≢ 0 → s.entries ≡ page_of xs (from / 32))
        → Refines s from best
    unfolding suggest_paged suggest
    suggest_paged-suggest s zero best o k le page = (s, 0, refl, refl, o, k)
    suggest_paged-suggest s (suc i) best o k le page =
        let (t, n, turned, at) = turn_page s i o k (omega arith) page in
        let key =
          entry_key_lem t (i / 32) (i % 32) i at (omega arith) (omega arith) (omega arith) in
        let back = prefix_match str (key_at xs i) in
        let (u, v, runs, flat_runs, open_u, keys_u) =
          suggest_paged-suggest t i back at.is_open at.has_keys (omega arith) (λ h. at.page) in
        elim (Bool-cases (back == 0 || ltb back best)) [
          | inl stop ↦ (t, suc i, rw turned (rw key (rw stop)), rw stop, at.is_open, at.has_keys)
          | inr on ↦ (u, v, rw turned (rw key (rw on runs)), rw on flat_runs, open_u, keys_u)
        ]
