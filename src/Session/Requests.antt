-- ===== src/Session/Requests.antt =====
-- The requests that the lines of a client make (`_handleconn` of
-- source_codes/stardictd/src/daemon.cpp): the names, in the order in which they are tested, and the
-- words that each needs.
use stardictd.Base.{
  ℕ, Bool, true, false, ◌∷◌, List, [], Option, none, some, Bytes, codes, eqb, if◌then◌else◌,
}
use stardictd.Base.Int.{ℤ, pos, ltb_ℤ}
use stardictd.Base.Decimal.{atoi}

-- The words that a client may ask for: no less than 1 and no more than `most`.
unfoldable pub clamp : ℤ → ℕ → ℤ
clamp wordcount most =
    if ltb_ℤ wordcount (pos 1)
    then pos 1
    else (if ltb_ℤ (pos most) wordcount then pos most else wordcount)

-- The call that a line makes.
pub data Request : Type 0 where
  no_command unknown_command quit : Request
  client : Bytes → Request
  auth : Bytes → Bytes → Request
  lookup previous next : Bytes → ℤ → Request
  query selectquery define : Bytes → Request
  smartquery : Bytes → Bytes → Request
  register change_password : Bytes → Bytes → Bytes → Request
  setdictmask setcollatefunc setlanguage setemail : Bytes → Request
  getdictmask getcollatefunc getlanguage getemail getuserlevel maxdictcount : Request
  dirinfo dictinfo dictslist tmpdictmask : Bytes → Request
  userlevel : Bytes → Bytes → Bytes → Request
  fromto getadinfo : Request

-- How the words behind a name are taken; `none` is too few of them.
abbrev pub Form : Type 0
Form = List Bytes → Option Request

abbrev pub no_words : Request → Form
no_words r words = some r

abbrev pub one_word : (Bytes → Request) → Form
one_word f [] = none
one_word f (a ∷ words) = some (f a)

abbrev pub two_words : (Bytes → Bytes → Request) → Form
two_words f (a ∷ b ∷ words) = some (f a b)
two_words f _ = none

abbrev pub three_words : (Bytes → Bytes → Bytes → Request) → Form
three_words f (a ∷ b ∷ c ∷ words) = some (f a b c)
three_words f _ = none

-- A word with a count: at most `most`, and `usual` when it is not given.
abbrev pub word_and_count : (Bytes → ℤ → Request) → ℕ → ℕ → Form
word_and_count f most usual [] = none
word_and_count f most usual (a ∷ []) = some (f a (pos usual))
word_and_count f most usual (a ∷ n ∷ words) = some (f a (clamp (atoi n) most))

-- The tests of the loop, in their order.
abbrev pub forms : List (Bytes × Form)
forms =
    (codes "client", two_words (λ protocol name. client protocol))
    ∷ (codes "auth", two_words auth)
    ∷ (codes "lookup", word_and_count lookup 100 30)
    ∷ (codes "query", one_word query)
    ∷ (codes "selectquery", one_word selectquery)
    ∷ (codes "smartquery", two_words smartquery)
    ∷ (codes "define", one_word define)
    ∷ (codes "previous", word_and_count previous 50 15)
    ∷ (codes "next", word_and_count next 100 30)
    ∷ (codes "quit", no_words quit)
    ∷ (codes "register", three_words register)
    ∷ (codes "change_password", three_words change_password)
    ∷ (codes "setdictmask", one_word setdictmask)
    ∷ (codes "getdictmask", no_words getdictmask)
    ∷ (codes "setcollatefunc", one_word setcollatefunc)
    ∷ (codes "getcollatefunc", no_words getcollatefunc)
    ∷ (codes "setlanguage", one_word setlanguage)
    ∷ (codes "getlanguage", no_words getlanguage)
    ∷ (codes "setemail", one_word setemail)
    ∷ (codes "getemail", no_words getemail)
    ∷ (codes "getuserlevel", no_words getuserlevel)
    ∷ (codes "maxdictcount", no_words maxdictcount)
    ∷ (codes "dirinfo", one_word dirinfo)
    ∷ (codes "dictinfo", one_word dictinfo)
    ∷ (codes "userlevel", three_words userlevel)
    ∷ (codes "fromto", no_words fromto)
    ∷ (codes "dictslist", one_word dictslist)
    ∷ (codes "tmpdictmask", one_word tmpdictmask)
    ∷ (codes "getadinfo", no_words getadinfo)
    ∷ []

-- A form whose name is the first word and that has words enough, or what the later tests give.
abbrev pub chosen : Bool → Option Request → Request → Request
chosen true (some r) later = r
chosen true none later = later
chosen false o later = later

unfoldable pub select_form : List (Bytes × Form) → Bytes → List Bytes → Request
select_form [] name words = unknown_command
select_form (form ∷ later) name words =
    chosen (eqb name form.0) (form.1 words) (select_form later name words)

unfoldable pub parse_request : List Bytes → Request
parse_request [] = no_command
parse_request (name ∷ words) = select_form forms name words
