-- ===== src/Dict/Rules.antt =====
-- The words that match a rule (source_codes/stardictd/src/lib/stddict.cpp, `Dict::LookupWithRule`
-- and `Dict::LookupWithRegex`).
use stardictd.Base.{
  ℕ, zero, suc, ◌+◌, ◌-◌, ◌≤◌, ◌≡◌, refl, arith, Bool, List, [], ◌∷◌, ◌++◌, Option, some, Bytes,
  take, map, if◌then◌else◌, Bool-cases, inl, inr,
}
use stardictd.Base.Int.{pos}
use stardictd.Dict.{collect, any_index, lookup_with_rule}
use stardictd.Dict.Reads.{Reads}
use stardictd.Lookup.{unset_index}

-- The indices of the matching words among `n` words from `i` on, in ascending order.
abbrev pub matching : (Bytes → Bool) → (ℕ → Bytes) → ℕ → ℕ → List ℕ
matching matches word zero i = []
matching matches word (suc n) i =
    let rest = matching matches word n (i + 1) in if matches (word i) then i ∷ rest else rest

module _ {S : Type 0} (get_word : S → ℕ → Option (S × Bytes)) (count : ℕ) (word : ℕ → Bytes)
    (holds : S → Type 0) (file : Reads get_word count word holds) (matches : Bytes → Bool) where
  collect_lem :
      (n room : ℕ) (s : S) (i : ℕ)
      → holds s
      → i + n ≤ count
      → (t : S) × (collect get_word matches n room s i
          ≡ some (t, map pos (take room (matching matches word n i))))
        × holds t
  unfolding collect
  collect_lem zero zero s i hs le = (s, refl, hs)
  collect_lem zero (suc room) s i hs le = (s, refl, hs)
  collect_lem (suc n) zero s i hs le = (s, refl, hs)
  collect_lem (suc n) (suc room) s i hs le =
      let (t, runs, ht) = file.read s i hs (omega arith) in
      elim (Bool-cases (matches (word i))) [
        | inl hits ↦
            let (u, rest, hu) = collect_lem n room t (i + 1) ht (omega arith) in
            (u, rw runs (rw hits (rw rest refl)), hu)
        | inr misses ↦
            let (u, rest, hu) = collect_lem n (suc room) t (i + 1) ht (omega arith) in
            (u, rw runs (rw misses rest), hu)
      ]

  -- In a file whose words can all be read, `LookupWithRule` stores the indices of the matching
  -- words, in ascending order and at most one less than the buffer holds, then the end mark; and it
  -- tells whether there is one.
  pub lookup_with_rule-matching :
      (buff_len : ℕ) (s : S)
      → holds s
      → (t : S) × (lookup_with_rule get_word matches count buff_len s
          ≡ some (
            t,
            any_index (map pos (take (buff_len - 1) (matching matches word count 0))),
            map pos (take (buff_len - 1) (matching matches word count 0)) ++ (unset_index ∷ []),
          ))
        × holds t
  unfolding lookup_with_rule
  lookup_with_rule-matching buff_len s hs =
      let (t, runs, ht) = collect_lem count (buff_len - 1) s 0 hs (omega arith) in
      (t, rw runs refl, ht)
