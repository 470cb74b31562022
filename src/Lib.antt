-- ===== src/Lib.antt =====
-- Models of the C++ sources of bkjs-utils, a utilities module for node, and their theorems.
--
-- The program is a library of independent helpers (bklib/bklib.cpp, bklib/bkunzip.cpp,
-- bklib/bkregexp.cpp, bklib/bkzip.cpp) behind a node binding (binding.cpp). The modules:
--
-- - Prelude: shared names, lists over the native numbers, machine words, the type int (Int), the laws of `^`.
-- - Hash (bklib/bklib.cpp): Crc is bkCrc32 and the table _crc32; Super is bkHash, Murmur bkHash2,
--   Word bkHash3; Mixing has the word operations that the last two share.
-- - CountWords (bklib/bklib.cpp): bkCountWords, bkFindWords and isDelim. Links says what an entry
--   of kmpNext means, Table is about the preprocessing loop, Search about the searching loop, and
--   Spec counts the occurrences directly.
-- - Unzip (bklib/bkunzip.cpp): Cipher is the traditional encryption (_decrypt_byte, _update_keys,
--   _init_keys, zdecode, zencode), Locate is _get_central_dir, Reader is _get_byte, _get_short,
--   _get_long and fread, Entry is get_current_file_info, Directory has the state of an archive with
--   open, first_file, next_file and search_file, File the state of an open entry with check_header
--   and open_file, File/Read is read_file and the loop of toString, and Archive puts these together
--   in get_file_name, get_file_size, get_file_mode, get_comment, toString and get_files.
-- - Strings (bklib/bklib.cpp): bkStrReplace, bkToString, bkStrToLower, bkStrTrim, bkStrRtrim,
--   bkStrContains, bkStrEqual, bkStrNumeric, and bkStrSplit in Split.
-- - Geohash (bklib/bklib.cpp): bkGeoHashAdjacent, bkGeoHashRow, bkGeoHashGrid; Code is
--   bkGeoHashEncode and bkGeoHashDecode, on coordinates that are counted in units of which the bounds
--   of a hash of 12 characters are multiples, Cells, Bits, Rounds and Center are about both.
-- - Json (bklib/bklib.cpp, bklib/bklib.h): bkJsonValue; Text is the reading and writing of strings
--   and numbers (hatoui and bkJsonEscape among them), Parse is bkJsonParse, Stringify is
--   bkJsonStringify, Tree has bkJsonAppend, bkJsonGet, bkJsonGetStr, bkJsonSet and bkJsonDel.
-- - Zip (bklib/bkzip.cpp): bkDeflate, bkDeflateEnd and bkInflate.
-- - Log (bklib/bklib.cpp, bklib/bklib.h): bkLogCheck, bkLogSet, bkLogToString, bkLogFromString.
-- - AhoCorasick (bklib/bklib.cpp, bklib/bklib.h): bkAhoCorasick::prepare. Trie and Tree are about the
--   table gotos, Suffix, Fall, Links, Queue, Rounds, States, Rest and Built about the failures, the
--   bits and the queue, Size about the memory. Search is the loop of bkAhoCorasick::search over the
--   text, which Hits, Tally, Count and Occurrences follow; Combine has the object with add, reset,
--   setMode, modeName, the combination of the values and the whole of search; Load is addJson, over
--   bkJsonParse.
-- - Tests: the theorems at concrete inputs, and runs of the definitions.
--
-- Machine words are native numbers with the wrap written out. A buffer with its size is a list of
-- bytes, so null pointers and sizes that do not fit the buffer are not inputs; a `char` is its
-- byte. `unsigned long` has 64 bits.
--
-- Bounds on loops: the inner loop of bkCountWords is given one round more than the word has
-- characters, since each round shortens the match; _get_central_dir is given 65 rounds of 0x400
-- bytes for the 0xffff bytes that it searches. The theorems on both hold without a hypothesis on
-- these bounds. search_file, the loop of read_file and the loops of toString, get_files and
-- bkStrReplace take their bound as an argument, and give `none` when it does not do (get_files gives
-- the entries so far). A search takes one round more than there are entries, a read one more than
-- the bytes of the buffer, a replacement one more than the characters of the string.
--
-- bkJsonParse gives its main loop one round more than the source has bytes, and its loop over a
-- string one more than what is left; bkStrSplit gives its loop one round more than the text has
-- characters; all read a byte or more in each round. Where the source is
-- read behind the 0 that ends it, the result is `overrun`; where a freed member of a tree would be
-- written, there is none.
--
-- bkAhoCorasick::prepare gives its queue a number of rounds by the states that are left behind each
-- queued state (weight), and a fall along the failures one round for each state, as the word of a
-- state is no longer than the number of the state and gets shorter by a failure. An int that leaves
-- its range, and an index outside of alphabet, is `none`; 32 words or more have no tables.
--
-- bkGeoHashEncode gives its loop five rounds for each character and one more.
--
-- zlib (its table, crc32, inflateInit2 and inflate) is a record of functions, and mktime a function,
-- which the definitions take. The theorems on reading are about entries that are stored, and need no
-- law of these functions. In Zip, deflate, deflateEnd and inflate are functions too, and what zlib
-- documents of them is a hypothesis (IsTransducer, IsDeflate, IsInflate); the inner loops take a
-- number of rounds, and the hypothesis says how many are enough to empty zlib's own buffers.
--
-- Not modelled: the snappy directory is a copy of another library, and bklib/bkregexp.cpp is derived
-- from the regexp library of Henry Spencer; system calls, time and the
-- floating-point geometry; bkJsonFree, bkJsonPrint, bkJsonGetInt and bkJsonGetNum, which only free,
-- print or call atoll and atof; the conversion of values in the node binding; extract and unzip of
-- bklib/bkunzip.cpp, which write to the file system.
pub mod Prelude
pub mod Hash
pub mod CountWords
pub mod Unzip
pub mod Zip
pub mod Log
pub mod AhoCorasick
pub mod Strings
pub mod Geohash
pub mod Json
mod Tests
