-- ===== src/Conf/Values.antt =====
-- What a setting's value is (source_codes/stardictd/src/conf.cpp).
use stardictd.Base.{
  Bool, true, false, ◌≡◌, refl, ◌∙◌, arith, List, [], ◌∷◌, Option, none, some, Bytes, eqb, eqb_iff,
  All,
}
use stardictd.Base.Int.{ℤ, pos}
use stardictd.Conf.{
  KeyFile, Map, Conf, Setting, integer, text, boolean, find, put, put_read, path, read_setting,
  read_settings, defaults, settings, conf, get_bool, get_int, get_str, at_key,
}

module _ {A : Type 0} where
  -- A value that is given goes before another.
  abbrev pub or_else : Option A → A → A
  or_else none d = d
  or_else (some a) d = a

  -- What one reading makes of a key's value.
  abbrev overridden : Bool → Option A → Option A → Option A
  overridden false o d = d
  overridden true none d = d
  overridden true (some a) d = some a

  pub find-put :
      (p q : Bytes) (a : A) (m : Map A)
      → find q (put p a m) ≡ overridden (eqb p q) (some a) (find q m)
  find-put p q a [] = ground arith
  find-put p q a (e ∷ es) =
      ground (arith, find-put p q a es, eqb_iff e.0 p, eqb_iff e.0 q, eqb_iff p q)

  find-put_read :
      (p q : Bytes) (o : Option A) (m : Map A)
      → find q (put_read p o m) ≡ overridden (eqb p q) o (find q m)
  find-put_read p q none m = none_lem (eqb p q)
    where
      none_lem : (b : Bool) → find q m ≡ overridden b none (find q m)
      none_lem true = refl
      none_lem false = refl
  find-put_read p q (some a) m = find-put p q a m

-- The value of a key behind the readings, for each type.
module _ (file : KeyFile) (q : Bytes) where
  abbrev integer_value : List Setting → Option ℤ → Option ℤ
  integer_value [] d = d
  integer_value (integer g k ∷ ss) d =
      integer_value ss (overridden (eqb (path g k) q) (file.get_integer g k) d)
  integer_value (text g k ∷ ss) d = integer_value ss d
  integer_value (boolean g k ∷ ss) d = integer_value ss d

  abbrev text_value : List Setting → Option Bytes → Option Bytes
  text_value [] d = d
  text_value (text g k ∷ ss) d =
      text_value ss (overridden (eqb (path g k) q) (file.get_string g k) d)
  text_value (integer g k ∷ ss) d = text_value ss d
  text_value (boolean g k ∷ ss) d = text_value ss d

  abbrev boolean_value : List Setting → Option Bool → Option Bool
  boolean_value [] d = d
  boolean_value (boolean g k ∷ ss) d =
      boolean_value ss (overridden (eqb (path g k) q) (file.get_boolean g k) d)
  boolean_value (integer g k ∷ ss) d = boolean_value ss d
  boolean_value (text g k ∷ ss) d = boolean_value ss d

  find_integer :
      (ss : List Setting) (c : Conf)
      → find q (read_settings file ss c).int_map ≡ integer_value ss (find q c.int_map)
  unfolding read_settings
  find_integer [] c = refl
  find_integer (integer g k ∷ ss) c =
      rw (← find-put_read (path g k) q (file.get_integer g k) c.int_map)
        (find_integer ss (read_setting file (integer g k) c))
  find_integer (text g k ∷ ss) c = find_integer ss (read_setting file (text g k) c)
  find_integer (boolean g k ∷ ss) c = find_integer ss (read_setting file (boolean g k) c)

  find_text :
      (ss : List Setting) (c : Conf)
      → find q (read_settings file ss c).str_map ≡ text_value ss (find q c.str_map)
  unfolding read_settings
  find_text [] c = refl
  find_text (text g k ∷ ss) c =
      rw (← find-put_read (path g k) q (file.get_string g k) c.str_map)
        (find_text ss (read_setting file (text g k) c))
  find_text (integer g k ∷ ss) c = find_text ss (read_setting file (integer g k) c)
  find_text (boolean g k ∷ ss) c = find_text ss (read_setting file (boolean g k) c)

  find_boolean :
      (ss : List Setting) (c : Conf)
      → find q (read_settings file ss c).bool_map ≡ boolean_value ss (find q c.bool_map)
  unfolding read_settings
  find_boolean [] c = refl
  find_boolean (boolean g k ∷ ss) c =
      rw (← find-put_read (path g k) q (file.get_boolean g k) c.bool_map)
        (find_boolean ss (read_setting file (boolean g k) c))
  find_boolean (integer g k ∷ ss) c = find_boolean ss (read_setting file (integer g k) c)
  find_boolean (text g k ∷ ss) c = find_boolean ss (read_setting file (text g k) c)

-- A setting's value is the key file's, if that has one, and otherwise the default.
abbrev pub Configured : KeyFile → Setting → Type 0
Configured file (integer g k) =
    (get_int (conf (some file)) (path g k)).1
    ≡ or_else (file.get_integer g k) (get_int (conf none) (path g k)).1
Configured file (text g k) =
    (get_str (conf (some file)) (path g k)).1
    ≡ or_else (file.get_string g k) (get_str (conf none) (path g k)).1
Configured file (boolean g k) =
    (get_bool (conf (some file)) (path g k)).1
    ≡ or_else (file.get_boolean g k) (get_bool (conf none) (path g k)).1

at_key_lem :
    {A : Type 0} (z : A) (q : Bytes) (m : Map A) (a : A) → find q m ≡ some a → (at_key z q m).1 ≡ a
at_key_lem z q m a e = rw (e, at_key) refl

or_else_lem : {A : Type 0} (o : Option A) (d : A) → overridden true o (some d) ≡ some (or_else o d)
or_else_lem none d = refl
or_else_lem (some a) d = refl

module _ (file : KeyFile) (g k : Bytes) where
  abbrev q : Bytes
  q = path g k

  integer_lem :
      (d : ℤ)
      → find q defaults.int_map ≡ some d
      → integer_value file q settings (find q defaults.int_map)
        ≡ overridden true (file.get_integer g k) (some d)
      → Configured file (integer g k)
  unfolding get_int conf
  integer_lem d e f =
      let default = at_key_lem (pos 0) q defaults.int_map d e in
      rw default (
        at_key_lem (pos 0) q (read_settings file settings defaults).int_map _
          (find_integer file q settings defaults ∙ f ∙ or_else_lem (file.get_integer g k) d))

  text_lem :
      (d : Bytes)
      → find q defaults.str_map ≡ some d
      → text_value file q settings (find q defaults.str_map)
        ≡ overridden true (file.get_string g k) (some d)
      → Configured file (text g k)
  unfolding get_str conf
  text_lem d e f =
      let default = at_key_lem [] q defaults.str_map d e in
      rw default (
        at_key_lem [] q (read_settings file settings defaults).str_map _
          (find_text file q settings defaults ∙ f ∙ or_else_lem (file.get_string g k) d))

  boolean_lem :
      (d : Bool)
      → find q defaults.bool_map ≡ some d
      → boolean_value file q settings (find q defaults.bool_map)
        ≡ overridden true (file.get_boolean g k) (some d)
      → Configured file (boolean g k)
  unfolding get_bool conf
  boolean_lem d e f =
      let default = at_key_lem false q defaults.bool_map d e in
      rw default (
        at_key_lem false q (read_settings file settings defaults).bool_map _
          (find_boolean file q settings defaults ∙ f ∙ or_else_lem (file.get_boolean g k) d))

-- Every setting that the constructor reads has the key file's value, if the key file gives one, and
-- its default otherwise.
pub conf-Configured : (file : KeyFile) → All (Configured file) settings
conf-Configured file = (
  integer_lem file _ _ _ refl refl,
  (
    integer_lem file _ _ _ refl refl,
    (
      integer_lem file _ _ _ refl refl,
      (
        text_lem file _ _ _ refl refl,
        (
          integer_lem file _ _ _ refl refl,
          (
            text_lem file _ _ _ refl refl,
            (
              text_lem file _ _ _ refl refl,
              (
                text_lem file _ _ _ refl refl,
                (
                  integer_lem file _ _ _ refl refl,
                  (
                    integer_lem file _ _ _ refl refl,
                    (
                      text_lem file _ _ _ refl refl,
                      (
                        text_lem file _ _ _ refl refl,
                        (
                          boolean_lem file _ _ _ refl refl,
                          (
                            integer_lem file _ _ _ refl refl,
                            (
                              integer_lem file _ _ _ refl refl,
                              (
                                integer_lem file _ _ _ refl refl,
                                (
                                  integer_lem file _ _ _ refl refl,
                                  (
                                    integer_lem file _ _ _ refl refl,
                                    (
                                      integer_lem file _ _ _ refl refl,
                                      (text_lem file _ _ _ refl refl, tt),
                                    ),
                                  ),
                                ),
                              ),
                            ),
                          ),
                        ),
                      ),
                    ),
                  ),
                ),
              ),
            ),
          ),
        ),
      ),
    ),
  ),
)
