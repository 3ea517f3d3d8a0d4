-- ===== src/IdxFile.antt =====
-- The bytes of an index file: each entry is a key, its terminator and a fixed number of data bytes
-- (source_codes/stardictd/src/lib/stddict.cpp and lib/getuint32.h). A pointer into a buffer is the
-- rest of the buffer from there on; `none` is a read past the end of the buffer.
pub mod Layout
use stardictd.Base.{
  ℕ, zero, suc, ◌+◌, ◌*◌, List, [], ◌∷◌, ◌++◌, Option, none, some, ◌>>=◌, Bytes, ◌==◌,
  if◌then◌else◌, drop,
}

-- `strlen` of the C library.
unfoldable pub strlen : Bytes → Option ℕ
strlen [] = none
strlen (c ∷ s) = let rest = strlen s in if c == 0 then some 0 else (do n ← rest; some (suc n))

-- The C string that a pointer shows.
unfoldable pub c_string : Bytes → Option Bytes
c_string [] = none
c_string (c ∷ s) = let rest = c_string s in if c == 0 then some [] else (do t ← rest; some (c ∷ t))

-- `get_uint32`: four bytes in the order of the (little-endian) host.
unfoldable pub get_uint32 : Bytes → Option ℕ
get_uint32 (a ∷ b ∷ c ∷ d ∷ s) = some (a + 256 * (b + 256 * (c + 256 * d)))
get_uint32 _ = none

-- The two numbers behind a key of an .idx file, and the one behind a key of a .syn file.
-- `g_ntohl` is glib's.
module _ (g_ntohl : ℕ → ℕ) where
  unfoldable pub get_network : Bytes → Option ℕ
  unfolding get_uint32
  get_network p = do n ← get_uint32 p; some (g_ntohl n)

-- The step from one entry to the next: `strlen(p1) + 1 + extra`.
abbrev pub entry_size : ℕ → ℕ → ℕ
entry_size extra len = len + 1 + extra
