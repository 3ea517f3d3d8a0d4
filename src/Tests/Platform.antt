-- ===== src/Tests/Platform.antt =====
-- Concrete functions for what the program takes from glib, with the behaviour that is assumed.
use Prim.Native.Nat.{ℕ, ◌+◌, ◌*◌, ◌/◌, ◌%◌}
use stardictd.Base.{[], ◌∷◌, refl, arith, Bytes, map, leb, ◌&&◌, if◌then◌else◌}
use stardictd.Compare.Order.{IsPreorder, strcmp_flips, strcmp_trans}
use stardictd.Compare.{Comparison, strcmp}
use stardictd.IdxFile.Layout.{IsNetworkOrder}
use stardictd.Lookup.Prefix.{Unicode, IsUnicode, prefix_match}

abbrev pub lower : ℕ → ℕ
lower c = if leb b'A' c && leb c b'Z' then c + 32 else c

abbrev pub casecmp : Comparison
casecmp a b = strcmp (map lower a) (map lower b)

pub casecmp-IsPreorder : IsPreorder casecmp
casecmp-IsPreorder = record {
  flips = λ a b. strcmp_flips (map lower a) (map lower b);
  trans = λ a b c. strcmp_trans (map lower a) (map lower b) (map lower c);
}

abbrev pub ntohl : ℕ → ℕ
ntohl n = n % 256 * 16777216 + n / 256 % 256 * 65536 + n / 65536 % 256 * 256 + n / 16777216 % 256

pub ntohl-IsNetworkOrder : IsNetworkOrder ntohl
ntohl-IsNetworkOrder a b c d ha hb hc hd = omega arith

-- ASCII as the text encoding.
abbrev ascii_char : Bytes → ℕ
ascii_char [] = 0
ascii_char (c ∷ s) = c

abbrev ascii_next : Bytes → Bytes
ascii_next [] = []
ascii_next (c ∷ s) = s

abbrev pub ascii : Unicode
ascii = record { get_char = ascii_char; next_char = ascii_next; to_lower = lower }

pub ascii-IsUnicode : IsUnicode ascii
ascii-IsUnicode = record {
  end_is_zero = refl;
  next_shorter = λ c s. omega arith;
  lower_zero = refl;
  lower_ne_zero = λ c h. ground arith;
}

abbrev pub ascii_match : Bytes → Bytes → ℕ
ascii_match = prefix_match ascii
