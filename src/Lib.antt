-- ===== src/Lib.antt =====
-- Verification of stardictd, the StarDict dictionary server (source_codes/stardictd). The server
-- finds words in dictionaries whose index is a sorted file of keys. A query is analysed
-- (src/lib/lib.cpp), its word is looked up in every dictionary's indices (src/lib/stddict.cpp), and
-- the articles the indices point to are sent to the client.
--
-- Parts (paths below source_codes/stardictd/src/lib), from the bottom up:
--   Base      lists, Boolean tests, byte strings and the integers of `glong` indices
--   Query     lib.cpp: `analyse_query`, `stardict_input_escape`
--   Compare   stddict.cpp, top: `stardict_strcmp`, `stardict_collate` and the choice between them
--   Lookup    stddict.cpp: the binary search, the backward scan for the suggested word, and the flat
--             `lookup` made of them; `prefix_match` is in Lookup/Prefix
--   IdxFile   the bytes of an index file: `strlen`, `get_uint32`, and the format as an encoder
--   WordList  stddict.cpp, `wordlist_index`: an .idx.gz file held in memory
--   Paged     stddict.cpp, `offset_index` and `synonym_file`: .idx and .syn files read in pages of 32
--             entries; Access opens them, Lookup searches them, Files names the two classes'
--             operations. The state is the record `Paged`: the offset table, the file, four keys kept
--             in memory and the page that is loaded
--   Collation stddict.cpp, `collation_file` and `idxsyn_file`: tables sorted by a collation, made on
--             demand, and the choice of one by collation level
--   Articles  data.cpp, `DictBase::GetWordData`: reading an article, putting its saved type marks back
--             (Expand), and the cache of ten articles (Cache)
--   Dict      stddict.cpp, `Dict`: the previous and next word, how often a word occurs, the words
--             that match a rule; over any file whose words can be read (Reads, which Files fills)
--   Libs      stddict.cpp, `Libs`: which of several dictionaries' words is the current one (Least)
--             and which suggestion is shown (Suggested)
--   Conf      conf.cpp in source_codes/stardictd/src: the defaults and the key file that overrides
--             them
--   Libs/Mask stddict.cpp, `Libs::SetServerDictMask` and `get_dicts_list`: the dictionaries of a user
--   Libs/Next, Libs/Previous
--             stddict.cpp, `Libs::poGetNextWord` and `Libs::poGetPreWord`, and the lists of words that
--             stardictdmain.cpp makes with them (`next`, `previous`, `ListWords`)
--   Libs/Similar
--             stddict.cpp, `Libs::LookupSimilarWord` and its relatives: a word in another case or
--             without its English ending
--   Net       net.cpp: reading a line and writing a buffer
--   Command   daemon.cpp, `args_new`, and the client's `arg_escape`
--   Db, Main  db.cpp, the connection to MySQL; the state of stardictdmain.cpp that commands change,
--             and the interfaces `Dictionaries` and `Answers` through which the handlers use `Libs`
--   Session   daemon.cpp: a process that serves one client. The record `Session` holds the file's
--             static variables, the state of `stardictdMain` and what has been sent and logged; a
--             handler may end early, end the process or be undefined. Auth, Account, Profile and
--             Lookups have the handlers, Requests the table of commands, Dispatch the loop; Frame and
--             Kept say what a handler leaves alone, Completed what is known when a step has gone on;
--             Authority, Takeover, Login, Identity, Collates, Levels, Refused, Counts and Loop are
--             about the whole
--   Client    source_codes/stardict-client/src/command.cpp: the lines that the client sends
--   Tests     runs on small files, and the theorems at concrete inputs
--
-- A text is the list of its bytes without the terminator, a pointer into a buffer is the rest of the
-- buffer. `none` is a read outside a buffer, a failed open, a short read, or a read of a word whose
-- page may be gone. `gint` results of comparisons are their sign. Offsets are `guint32`, with the
-- wrap-around written out.
-- Fuel: the binary search gets one round more than the keys it searches, `prefix_match` one more
-- than the bytes of its first word, `net_write` a call for each byte, and a connection a round for
-- each byte of its input and one more; that these are enough is proved. `print_nat` has a round more
-- than its number, and the walk over words that differ in case (`walk_same`) two more than the words,
-- which is enough if each `GetWordPrev` goes back (`IsFile`).
--
-- Parameters: glib's `g_ascii_strcasecmp`, `g_ntohl`, `g_qsort_with_data`, UTF-8 and Unicode
-- functions and key file, the collation tables `utf8_collate`, what zlib and dictzip decompress, and
-- the tables in cache files; for the server also libmysqlclient, MD5, RSA with base64, `atof`, the
-- clock and the system call `write`. The hypotheses on them are `IsPreorder`, `IsNetworkOrder`,
-- `IsUnicode`, `Sorts` and `MakesProgress`; a step over several dictionaries asks that each is chosen
-- once (`IsOnce`), since a word that is held points into the page of its file.
--
-- Not modelled: writing cache files, the search inside articles, the texts that answer a word
-- (stardictdmain.cpp), what the client prints, and the alarms that end a slow process. Copies of other
-- projects (ctype-*.cpp of MySQL, dictziplib.cpp of dictd, md5.c) are left out.
pub mod Base
pub mod Query
pub mod Compare
pub mod Lookup
pub mod IdxFile
pub mod WordList
pub mod Paged
pub mod Dict
pub mod Collation
pub mod Articles
pub mod Libs
pub mod Conf
pub mod Net
pub mod Command
pub mod Db
pub mod Main
pub mod Session
pub mod Client
mod Tests
