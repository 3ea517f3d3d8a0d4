-- ===== src/Dict/Reads.antt =====
-- What the walks over a dictionary's words (source_codes/stardictd/src/lib/stddict.cpp, `Dict`) need
-- of the file that they read.
use stardictd.Base.{ℕ, ◌<◌, ◌≡◌, Option, some, Bytes}

-- Every word of the file can be read, in every state that reading leads to.
pub record Reads {S : Type 0} (get_word : S → ℕ → Option (S × Bytes)) (count : ℕ) (word : ℕ → Bytes)
    (holds : S → Type 0) : Type 0 where
  pub read :
      (s : S) (i : ℕ) → holds s → i < count → (t : S) × (get_word s i ≡ some (t, word i)) × holds t
